-- ===== src/Platform/Tests.antt =====
-- The calls that the Windows variant of src/platform.rs makes.
use ferrum_alloc.Base.{ℕ, none, List, [], ◌∷◌, ◌≡◌, refl}
use ferrum_alloc.Platform.{align_up}
use ferrum_alloc.Platform.Windows.{
  Windows, windows_os_alloc, windows_os_free, windows_tls_create, windows_tls_get, windows_tls_set,
}

-- A Windows that gives out every region at 65536 and keeps the arguments of the calls, the last first.
abbrev logging : Windows
logging = record {
  State = List (ℕ × ℕ × ℕ × ℕ);
  virtual_alloc = λ s address size kind protect. (65536, (address, size, kind, protect) ∷ s);
  virtual_free = λ s address size kind. (address, size, kind, 0) ∷ s;
  tls_alloc = λ s. (0xFFFFFFFF, s);
  tls_get_value = λ s key. key;
  tls_set_value = λ s key value. (key, value, 0, 0) ∷ s;
}

allocated : windows_os_alloc logging [] 5000 ≡ (65536, (0, 8192, 12288, 4) ∷ [])
unfolding windows_os_alloc align_up
allocated = refl

given_back : windows_os_free logging [] 65536 5000 ≡ (65536, 0, 32768, 0) ∷ []
unfolding windows_os_free
given_back = refl

null_kept : windows_os_free logging [] 0 5000 ≡ []
unfolding windows_os_free
null_kept = refl

no_key : windows_tls_create logging [] ≡ none
unfolding windows_tls_create
no_key = refl

value_set : windows_tls_set logging [] 7 65536 ≡ (7, 65536, 0, 0) ∷ []
unfolding windows_tls_set
value_set = refl

value_read : windows_tls_get logging [] 7 ≡ 7
unfolding windows_tls_get
value_read = refl

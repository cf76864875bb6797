-- ===== src/Auth/Passwords.antt =====
-- Password hashes in the format of Argon2id (internal/server/auth/argon2.go). The salt is an
-- argument, none where the system has no random bytes.
use lightai_go.Common.{
  ℕ, ◌^◌, ◌%◌, Bool, Option, none, some, List, [], ◌∷◌, ◌++◌, length, nat_eq, ◌==◌,
}
use lightai_go.Text.{Text, text, text_eq, split}
use lightai_go.Text.Print.{print_nat}
use lightai_go.Auth.{Server, ◌>>=◌}

abbrev pub argon2_time : ℕ
argon2_time = 3

abbrev pub argon2_memory : ℕ
argon2_memory = 65536

abbrev pub argon2_threads : ℕ
argon2_threads = 4

abbrev pub argon2_key_len : ℕ
argon2_key_len = 32

unfoldable pub hash_params : Text
unfolding print_nat
hash_params =
    text "m="
    ++ print_nat argon2_memory
    ++ text ",t="
    ++ print_nat argon2_time
    ++ text ",p="
    ++ print_nat argon2_threads

-- `HashPassword`
unfoldable pub hash_password : Server → Option (List ℕ) → Text → Option Text
unfolding hash_params
hash_password srv salt password = do
  s ← salt
  some (
      text "$argon2id$v=19$"
      ++ (hash_params
          ++ (b'$'
              ∷ (srv.library.base64_encode s
                  ++ (b'$'
                      ∷ srv.library.base64_encode (
                          srv.library.argon2_key password s argon2_time argon2_memory argon2_threads
                            argon2_key_len))))))

-- The comparison of `VerifyPassword`, with Go's conversions of the parameters
unfoldable pub verify_parts : Server → Text → Text → Text → Text → Option Bool
verify_parts srv password params salt hash = do
  p ← srv.library.scan_params params
  s ← srv.library.base64_decode salt
  expected ← srv.library.base64_decode hash
  some (
      srv.library.argon2_key password s (p.1.0 % 2 ^ 32) (p.0 % 2 ^ 32) (p.1.1 % 2 ^ 8)
        (length expected % 2 ^ 32)
      == expected)

-- `VerifyPassword`
unfoldable pub verify_password : Server → Text → Text → Option Bool
unfolding split verify_parts
verify_password srv password encoded = elim (split b'$' encoded) [
  | a ∷ b ∷ c ∷ params ∷ salt ∷ hash ∷ [] ↦ verify_parts srv password params salt hash
  | _ ↦ none
]

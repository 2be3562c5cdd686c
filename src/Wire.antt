-- ===== src/Wire.antt =====
-- struct message of servers/algorithm_distributor.cc and servers/inner_server.cc: the client's
-- descriptor in four bytes, least significant first, and sixteen bytes of payload.
use gra_project.Base.{
  ℕ, ◌+◌, ◌*◌, ◌/◌, ◌%◌, ◌^◌, ◌<◌, ◌≡◌, Bool, true, ◌&&◌, [], ◌∷◌, ◌++◌, arith, ltb, drop, get_or,
  length, drop-length, ap, ◌∙◌, append-nil, Bytes,
}

abbrev pub mess_len : ℕ
mess_len = 20

abbrev pub normal_len : ℕ
normal_len = 16

-- An int in memory: `mess.fd = fd`.
unfoldable pub int_bytes : ℕ → Bytes
int_bytes n = (n % 256) ∷ (n / 256 % 256) ∷ (n / 65536 % 256) ∷ (n / 16777216 % 256) ∷ []

-- The bits of the int in the first four bytes.
unfoldable pub int_at : Bytes → ℕ
int_at m = get_or m 0 0 + 256 * get_or m 1 0 + 65536 * get_or m 2 0 + 16777216 * get_or m 3 0

-- `mess.fd > 0`: an int is positive if its sign bit is clear.
unfoldable pub is_positive : ℕ → Bool
is_positive n = ltb 0 n && ltb n (2 ^ 31)

-- `mess.fd = fd; memcpy(mess.m, buf, normalLen)`
unfoldable pub message : ℕ → Bytes → Bytes
unfolding int_bytes
message fd buf = int_bytes fd ++ buf

-- What a read of fewer bytes than the buffer holds leaves in it.
unfoldable pub overwrite : Bytes → Bytes → Bytes
overwrite bytes memory = bytes ++ drop (length bytes) memory

pub int_at-message : (fd : ℕ) (buf : Bytes) → fd < 2 ^ 32 → int_at (message fd buf) ≡ fd
unfolding int_at message
int_at-message fd buf h = omega arith

pub length-message : (fd : ℕ) (buf : Bytes) → length (message fd buf) ≡ 4 + length buf
unfolding message
length-message fd buf = omega arith

pub overwrite_whole :
    (bytes memory : Bytes) → length bytes ≡ length memory → overwrite bytes memory ≡ bytes
unfolding overwrite
overwrite_whole bytes memory h =
    ap (λ n. bytes ++ drop n memory) h ∙ ap (◌++◌ bytes) (drop-length memory) ∙ append-nil bytes

pub is_positive_lem : (n : ℕ) → 0 < n → n < 2 ^ 31 → is_positive n ≡ true
unfolding is_positive
is_positive_lem n p q = ground arith

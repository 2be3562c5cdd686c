-- ===== src/Load.antt =====
-- procmon/load_test.cc: a program that fills a file with the letter a again and again. What it
-- allocates is there: `new` and `memset` are left out.
pub mod Bounds
use gra_project.Base.{
  ℕ, ◌+◌, ◌-◌, ◌*◌, ◌^◌, ◌%◌, Bool, true, false, not, ◌&&◌, ◌==◌, ltb, if◌then◌else◌,
}
use gra_project.Sys.{
  open_file, write_same, lseek, usleep, Outcome, ok, error, result, text, M, ◌>>=◌, ◌>>◌, pure, get,
  modify, syscall, run_call, ok_or_exit,
}
use gra_project.Sys.Loop.{loop, forever}

-- `len`, the size of the buffer
abbrev pub len : ℕ
len = 1024 * 1024 * 512

-- `l`, as 64 bits: what is left to write in this round.
pub record Vars : Type 0 where
  pub left : ℕ

-- `l > 0` of the bits of a `long long`
abbrev pub is_positive : ℕ → Bool
is_positive l = not (l == 0) && ltb l (2 ^ 63)

-- `l -= n`, where `n` is -1 if the write fails
unfoldable pub left_after : Outcome → ℕ → ℕ
left_after (ok n) l = (l + (2 ^ 64 - n)) % 2 ^ 64
left_after (error e) l = (l + 1) % 2 ^ 64

unfoldable pub write_turn : ℕ → M Vars Bool
write_turn fd = do
  s ← get
  if is_positive s.left
      then (do
        r ← syscall (write_same fd s.left)
        modify (λ s. record s { left = left_after (result r) s.left })
        pure true)
      else pure false

unfoldable pub write_round : ℕ → M Vars (Unit {0})
write_round fd = do
  modify (λ s. record s { left = len })
  loop (write_turn fd)
  run_call (lseek fd 0)
  run_call (usleep 10000)

unfoldable pub main : M Vars (Unit {0})
main = do
  r ← syscall (open_file (text "iotestt"))
  fd ← ok_or_exit (result r)
  forever (write_round fd)

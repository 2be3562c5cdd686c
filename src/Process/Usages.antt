-- ===== src/Process/Usages.antt =====
-- procmon/procmon.cc: what a tick makes of the text of /proc/pid/stat.
use mathlib.Core.Bool.{false≢true}
use gra_project.Base.{
  ℕ, ◌≡◌, refl, sym, ap, ◌∙◌, true, false, ◌||◌, none, some, [], ◌∷◌, ◌++◌, Bytes, contains, ◌==◌,
  eq→==, Bool-cases, inl, inr,
}
use gra_project.Sys.{World, returns, and_then, ◌>>=◌}
use gra_project.Numbers.{Numbers}
use gra_project.Process.{
  or_whole, StatData, parse, behind_last, start_at_state, Machine, Vars, cpu_usage, time_since,
  set_usages, compute, take_sample,
}

behind_last-none : (c : ℕ) (xs : Bytes) → contains xs c ≡ false → behind_last c xs ≡ none
unfolding behind_last
behind_last-none c [] h = refl
behind_last-none c (x ∷ xs) h = elim (Bool-cases (x == c)) [
  | inl e ↦ absurd (false≢true (sym h ∙ ap (λ b. b || contains xs c) e))
  | inr n ↦ simp (behind_last-none c xs (sym (ap (λ b. b || contains xs c) n) ∙ h), n)
]

behind_last-append :
    (c : ℕ) (before rest : Bytes)
    → contains rest c ≡ false
    → behind_last c (before ++ (c ∷ rest)) ≡ some rest
unfolding behind_last
behind_last-append c [] rest h = simp (behind_last-none c rest h, eq→== c c refl)
behind_last-append c (x ∷ before) rest h = simp (behind_last-append c before rest h)

-- A text of the file: what stands before the last `)`, and what stands behind it.
abbrev pub stat_text : Bytes → Bytes → Bytes
stat_text before rest = before ++ (b')' ∷ rest)

start_at_state-stat_text :
    (before rest : Bytes)
    → contains rest b')' ≡ false
    → start_at_state (stat_text before rest) ≡ rest
unfolding start_at_state
start_at_state-stat_text before rest h =
    ap (or_whole (stat_text before rest)) (behind_last-append b')' before rest h)

module _ {N : Numbers} (machine : Machine N) (period : N.Double) where
  parse_text :
      (before rest : Bytes) (now : StatData)
      → contains rest b')' ≡ false
      → parse machine.kb_per_page rest ≡ some now
      → parse machine.kb_per_page (start_at_state (stat_text before rest)) ≡ some now
  parse_text before rest now h e =
      ap (parse machine.kb_per_page) (start_at_state-stat_text before rest h) ∙ e

  -- The first tick only remembers.
  first_sample :
      (stat : Bytes) (now : StatData) (w : World (Vars N))
      → parse machine.kb_per_page (start_at_state stat) ≡ some now
      → w.vars.ticked ≡ false
      → take_sample machine period stat w
        ≡ returns
            (w.vars.cpu, w.vars.mem)
            (record w { vars = record w.vars { last = now; ticked = true } })
  unfolding take_sample compute
  first_sample stat now w e t = simp (e, t)

  later_sample :
      (stat : Bytes) (now : StatData) (time : ℕ) (w : World (Vars N))
      → parse machine.kb_per_page (start_at_state stat) ≡ some now
      → w.vars.ticked ≡ true
      → time_since machine w.vars.last now ≡ some time
      → (v : World (Vars N)) × (take_sample machine period stat w
          ≡ returns
              (cpu_usage machine period time, N.div (machine.of_long now.rss_kb) (N.lit 41943040))
              v)
        × (v.script ≡ w.script)
  unfolding take_sample compute set_usages
  later_sample stat now time w e t d = (
    record w {
      vars = record (set_usages machine period now time w.vars) { last = now; ticked = true };
    },
    simp (e, t, d),
    refl,
  )

  pub usages_of_process :
      (before before' rest rest' : Bytes) (a b : StatData) (time : ℕ) (w : World (Vars N))
      → contains rest b')' ≡ false
      → contains rest' b')' ≡ false
      → parse machine.kb_per_page rest ≡ some a
      → parse machine.kb_per_page rest' ≡ some b
      → time_since machine a b ≡ some time
      → w.vars.ticked ≡ false
      → (v : World (Vars N)) × ((take_sample machine period (stat_text before rest)
              >>= (λ p. take_sample machine period (stat_text before' rest')))
            w
          ≡ returns
              (cpu_usage machine period time, N.div (machine.of_long b.rss_kb) (N.lit 41943040))
              v)
        × (v.script ≡ w.script)
  usages_of_process before before' rest rest' a b time w h h' e e' d t =
      let u : World (Vars N) = record w { vars = record w.vars { last = a; ticked = true } } in
      let (v, run, script) =
        later_sample (stat_text before' rest') b time u (parse_text before' rest' b h' e') refl d in
      (
        v,
        ap (λ r. and_then r (λ p. take_sample machine period (stat_text before' rest')))
              (first_sample (stat_text before rest) a w (parse_text before rest a h e) t)
            ∙ run,
        script,
      )

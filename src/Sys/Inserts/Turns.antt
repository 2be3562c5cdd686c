-- ===== src/Sys/Inserts/Turns.antt =====
-- Loops under Sys/Inserts: one without looks at the clock by one with them, which has more replies to
-- take its fuel from.
use gra_project.Base.{
  ℕ, zero, suc, ◌+◌, ◌≡◌, ◌<◌, ◌≤◌, refl, subst, ap, ◌∙◌, Bool, true, false, List, [], ◌++◌, length,
  length-append, append_assoc, arith,
}
use gra_project.Sys.{Reply, World, Run, returns, halts, M, and_then, pure}
use gra_project.Sys.Loop.{repeat, loop}
use gra_project.Sys.Seen.{seen}
use gra_project.Sys.Inserts.{told, Precedes}

module _ {S T : Type 0} (φ : S → T) (m : M S Bool) (n : M T Bool) where
  -- A run of the first loop, with any fuel that is more than its replies, that is seen as the given run.
  abbrev Orbits : World S → List Reply → Run T (Unit {0}) → Type 0
  Orbits w script (returns b v) =
      (ds : List Reply) × (u : World S) × (seen φ u v.script ≡ v)
      × (length v.script ≤ length script)
      × ((rest : List Reply) (fuel : ℕ)
          → length (ds ++ rest) < fuel
          → repeat fuel m (told w (ds ++ rest)) ≡ returns tt (told u rest))
  Orbits w script (halts h v) =
      (ds : List Reply) × (u : World S) × (seen φ u v.script ≡ v)
      × ((fuel : ℕ) → length ds < fuel → repeat fuel m (told w ds) ≡ halts h (told u []))

  -- A turn that goes on, and the turns behind it.
  Orbits-more :
      (w u : World S) (ds script left : List Reply) (r : Run T (Unit {0}))
      → 1 ≤ length ds
      → 1 + length left ≤ length script
      → ((rest : List Reply) → m (told w (ds ++ rest)) ≡ returns true (told u rest))
      → Orbits u left r
      → Orbits w script r
  unfolding repeat
  Orbits-more w u ds script left (returns a v) c s e (xs, u', ev, t, i) = (
    ds ++ xs,
    u',
    ev,
    omega (arith, s, t),
    λ rest fuel l. turn rest fuel (ap length (append_assoc ds xs rest)) l,
  )
    where
      turn :
          (rest : List Reply) (fuel : ℕ)
          → length ((ds ++ xs) ++ rest) ≡ length (ds ++ (xs ++ rest))
          → length ((ds ++ xs) ++ rest) < fuel
          → repeat fuel m (told w ((ds ++ xs) ++ rest)) ≡ returns tt (told u' rest)
      turn rest zero q l = absurd (omega (arith, l))
      turn rest (suc fuel) q l =
          ap (λ ys. repeat (suc fuel) m (told w ys)) (append_assoc ds xs rest)
          ∙ ap (λ q. and_then q (λ b. elim b [ true ↦ repeat fuel m | false ↦ pure tt ]))
              (e (xs ++ rest))
          ∙ i rest fuel (omega (arith, l, q, c, length-append ds (xs ++ rest)))
  Orbits-more w u ds script left (halts h v) c s e (xs, u', ev, i) = (ds ++ xs, u', ev, turn)
    where
      turn :
          (fuel : ℕ)
          → length (ds ++ xs) < fuel
          → repeat fuel m (told w (ds ++ xs)) ≡ halts h (told u' [])
      turn zero l = absurd (omega (arith, l))
      turn (suc fuel) l =
          ap (λ q. and_then q (λ b. elim b [ true ↦ repeat fuel m | false ↦ pure tt ])) (e xs)
          ∙ i fuel (omega (arith, l, c, length-append ds xs))

  Orbits-turn :
      (fuel : ℕ) (w : World S) (script : List Reply) (r : Run T Bool)
      → length script < suc fuel
      → Precedes φ (λ b. b) 1 m w script r
      → ((u : World S) (left : List Reply)
          → length left < fuel
          → Orbits u left (repeat fuel n (seen φ u left)))
      → Orbits w script (and_then r (λ b. elim b [ true ↦ repeat fuel n | false ↦ pure tt ]))
  unfolding repeat
  Orbits-turn fuel w script (returns true v) l (ds, a, u, eb, ev, c, s, e) h =
      Orbits-more w u ds script v.script (repeat fuel n v) c s
        (λ rest. e rest ∙ ap (λ b. returns b (told u rest)) eb)
        (subst (λ x. Orbits u v.script (repeat fuel n x)) ev (h u v.script (omega (arith, l, s))))
  Orbits-turn fuel w script (returns false v) l (ds, a, u, eb, ev, c, s, e) h =
      (ds, u, ev, omega (arith, s), last)
    where
      last :
          (rest : List Reply) (fuel' : ℕ)
          → length (ds ++ rest) < fuel'
          → repeat fuel' m (told w (ds ++ rest)) ≡ returns tt (told u rest)
      last rest zero l' = absurd (omega (arith, l'))
      last rest (suc fuel') l' =
          ap (λ q. and_then q (λ b. elim b [ true ↦ repeat fuel' m | false ↦ pure tt ]))
            (e rest ∙ ap (λ b. returns b (told u rest)) eb)
  Orbits-turn fuel w script (halts x v) l (ds, u, ev, e) h = (ds, u, ev, last)
    where
      last : (fuel' : ℕ) → length ds < fuel' → repeat fuel' m (told w ds) ≡ halts x (told u [])
      last zero l' = absurd (omega (arith, l'))
      last (suc fuel') l' =
          ap (λ q. and_then q (λ b. elim b [ true ↦ repeat fuel' m | false ↦ pure tt ])) e

  module _
      (turn : (w : World S) (script : List Reply)
        → Precedes φ (λ b. b) 1 m w script (n (seen φ w script))) where
    Orbits-repeat :
        (fuel : ℕ) (w : World S) (script : List Reply)
        → length script < fuel
        → Orbits w script (repeat fuel n (seen φ w script))
    unfolding repeat
    Orbits-repeat zero w script l = absurd (omega (arith, l))
    Orbits-repeat (suc fuel) w script l =
        Orbits-turn fuel w script (n (seen φ w script)) l (turn w script) (Orbits-repeat fuel)

    Precedes-circle :
        (w : World S) (script : List Reply) (r : Run T (Unit {0}))
        → Orbits w script r
        → Precedes φ (λ x. x) 0 (loop m) w script r
    unfolding loop
    Precedes-circle w script (returns b v) (ds, u, ev, s, e) = (
      ds,
      b,
      u,
      refl,
      ev,
      omega arith,
      omega (arith, s),
      λ rest. e rest (suc (length (ds ++ rest))) (omega arith),
    )
    Precedes-circle w script (halts h v) (ds, u, ev, e) =
        (ds, u, ev, e (suc (length ds)) (omega arith))

    pub Precedes-loop :
        (w : World S) (script : List Reply)
        → Precedes φ (λ x. x) 0 (loop m) w script (loop n (seen φ w script))
    unfolding loop
    Precedes-loop w script =
        Precedes-circle w script (repeat (suc (length script)) n (seen φ w script))
          (Orbits-repeat (suc (length script)) w script (omega arith))

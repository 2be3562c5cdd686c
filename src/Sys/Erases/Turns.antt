-- ===== src/Sys/Erases/Turns.antt =====
-- Loops under Sys/Erases: one with looks at the clock in its turns by one without them, which may take
-- more fuel than there are replies.
use gra_project.Base.{
  ℕ, zero, suc, ◌+◌, ◌≡◌, ◌<◌, ◌≤◌, ap, ◌∙◌, Bool, true, false, List, [], ◌++◌, length,
  length-append, append_assoc, arith,
}
use gra_project.Sys.{Reply, World, Run, returns, halts, M, and_then, pure}
use gra_project.Sys.Loop.{repeat, loop}
use gra_project.Sys.Seen.{seen}
use gra_project.Sys.Inserts.Turns.{Precedes-loop}
use gra_project.Sys.Follows.{Follows}
use gra_project.Sys.Erases.{Erases}

module _ {S T : Type 0} (φ : S → T) (m : M S Bool) (n : M T Bool) where
  -- The run of the second loop on some of the replies, with any fuel that is more than these.
  abbrev Circles : World S → Run S (Unit {0}) → Type 0
  Circles w (returns a v) =
      (cs : List Reply) × (length v.script ≤ length w.script)
      × ((rest : List Reply) (fuel : ℕ)
          → length (cs ++ rest) < fuel
          → repeat fuel n (seen φ w (cs ++ rest)) ≡ returns tt (seen φ v rest))
  Circles w (halts h v) =
      (cs : List Reply) × ((fuel : ℕ)
        → length cs < fuel
        → repeat fuel n (seen φ w cs) ≡ halts h (seen φ v []))

  -- A turn that goes on, and the turns behind it.
  Circles-more :
      (w v : World S) (cs : List Reply) (r : Run S (Unit {0}))
      → 1 ≤ length cs
      → 1 + length v.script ≤ length w.script
      → ((rest : List Reply) → n (seen φ w (cs ++ rest)) ≡ returns true (seen φ v rest))
      → Circles v r
      → Circles w r
  unfolding repeat
  Circles-more w v cs (returns a u) c s e (ds, t, i) = (
    cs ++ ds,
    omega (arith, s, t),
    λ rest fuel l. turn rest fuel (ap length (append_assoc cs ds rest)) l,
  )
    where
      turn :
          (rest : List Reply) (fuel : ℕ)
          → length ((cs ++ ds) ++ rest) ≡ length (cs ++ (ds ++ rest))
          → length ((cs ++ ds) ++ rest) < fuel
          → repeat fuel n (seen φ w ((cs ++ ds) ++ rest)) ≡ returns tt (seen φ u rest)
      turn rest zero q l = absurd (omega (arith, l))
      turn rest (suc fuel) q l =
          ap (λ xs. repeat (suc fuel) n (seen φ w xs)) (append_assoc cs ds rest)
          ∙ ap (λ q. and_then q (λ b. elim b [ true ↦ repeat fuel n | false ↦ pure tt ]))
              (e (ds ++ rest))
          ∙ i rest fuel (omega (arith, l, q, c, length-append cs (ds ++ rest)))
  Circles-more w v cs (halts h u) c s e (ds, i) = (cs ++ ds, turn)
    where
      turn :
          (fuel : ℕ)
          → length (cs ++ ds) < fuel
          → repeat fuel n (seen φ w (cs ++ ds)) ≡ halts h (seen φ u [])
      turn zero l = absurd (omega (arith, l))
      turn (suc fuel) l =
          ap (λ q. and_then q (λ b. elim b [ true ↦ repeat fuel n | false ↦ pure tt ])) (e ds)
          ∙ i fuel (omega (arith, l, c, length-append cs ds))

  Circles-turn :
      (fuel : ℕ) (w : World S) (r : Run S Bool)
      → length w.script < suc fuel
      → Follows φ (λ b. b) 1 n w r
      → ((v : World S) → length v.script < fuel → Circles v (repeat fuel m v))
      → Circles w (and_then r (λ b. elim b [ true ↦ repeat fuel m | false ↦ pure tt ]))
  unfolding repeat
  Circles-turn fuel w (returns true v) l (cs, c, s, e) h =
      Circles-more w v cs (repeat fuel m v) c s e (h v (omega (arith, l, s)))
  Circles-turn fuel w (returns false v) l (cs, c, s, e) h =
      (cs, omega (arith, s), λ rest fuel' l'. last rest fuel' l')
    where
      last :
          (rest : List Reply) (fuel' : ℕ)
          → length (cs ++ rest) < fuel'
          → repeat fuel' n (seen φ w (cs ++ rest)) ≡ returns tt (seen φ v rest)
      last rest zero l' = absurd (omega (arith, l'))
      last rest (suc fuel') l' =
          ap (λ q. and_then q (λ b. elim b [ true ↦ repeat fuel' n | false ↦ pure tt ])) (e rest)
  Circles-turn fuel w (halts x v) l (cs, e) h = (cs, last)
    where
      last : (fuel' : ℕ) → length cs < fuel' → repeat fuel' n (seen φ w cs) ≡ halts x (seen φ v [])
      last zero l' = absurd (omega (arith, l'))
      last (suc fuel') l' =
          ap (λ q. and_then q (λ b. elim b [ true ↦ repeat fuel' n | false ↦ pure tt ])) e

  Circles-repeat :
      Erases φ (λ b. b) 1 m n
      → (fuel : ℕ) (w : World S) → length w.script < fuel
      → Circles w (repeat fuel m w)
  unfolding repeat
  Circles-repeat h zero w l = absurd (omega (arith, l))
  Circles-repeat h (suc fuel) w l = Circles-turn fuel w (m w) l (h.at w) (Circles-repeat h fuel)

  Follows-loop :
      (w : World S) (r : Run S (Unit {0})) → Circles w r → Follows φ (λ x. x) 0 (loop n) w r
  unfolding loop
  Follows-loop w (returns a v) (cs, s, e) =
      (cs, omega arith, omega (arith, s), λ rest. e rest (suc (length (cs ++ rest))) (omega arith))
  Follows-loop w (halts h v) (cs, e) = (cs, e (suc (length cs)) (omega arith))

  -- The fuel of the two loops is what they have replies, each its own.
  pub Erases-loop : Erases φ (λ b. b) 1 m n → Erases φ (λ x. x) 0 (loop m) (loop n)
  unfolding loop
  Erases-loop h = record {
    at = λ w.
        Follows-loop w (repeat (suc (length w.script)) m w)
          (Circles-repeat h (suc (length w.script)) w (omega arith));
    back = λ w script. Precedes-loop φ m n h.back w script;
  }

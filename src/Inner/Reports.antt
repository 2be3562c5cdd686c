-- ===== src/Inner/Reports.antt =====
-- A report of an inner server as the distributor reads it.
use gra_project.Base.{
  ℕ, ◌≡◌, sym, ap, ◌∙◌, List, [], ◌∷◌, ◌++◌, append_assoc, arith, length, drop, Bytes, take-append,
  drop-append, take-length, length-append,
}
use gra_project.Sys.{read, write, Reply, done, input, World, returns, syscall}
use gra_project.Numbers.{Numbers}
use gra_project.Algorithm.Monitor.{Usage, usage_of}
use gra_project.Inner.Monitor.{report_of, report_turn}
use gra_project.Procmon.Ticks.{Vars, get_stat}

-- A `double` has eight bytes, and they give it back.
pub record Exact (N : Numbers) : Type 0 where
  pub length-to_bytes : (x : N.Double) → length (N.to_bytes x) ≡ 8
  pub of_bytes-to_bytes : (x : N.Double) → N.of_bytes (N.to_bytes x) ≡ x

module _ {N : Numbers} (exact : Exact N) where
  pub usage_of-report_of : (u : Usage N) → usage_of {N = N} (report_of u) ≡ u
  unfolding usage_of report_of
  usage_of-report_of u =
      let c : Bytes = N.to_bytes u.cpu in
      let m : Bytes = N.to_bytes u.memory in
      let i : Bytes = N.to_bytes u.io in
      let last : drop 16 (c ++ (m ++ i)) ≡ i =
        ap (drop 16) (sym (append_assoc c m i))
        ∙ drop-append (c ++ m) i 16 (
            omega (
              arith,
              length-append c m,
              exact.length-to_bytes u.cpu,
              exact.length-to_bytes u.memory,
            )) in
      simp (
        take-append c (m ++ i) 8 (exact.length-to_bytes u.cpu),
        drop-append c (m ++ i) 8 (exact.length-to_bytes u.cpu),
        take-append m i 8 (exact.length-to_bytes u.memory),
        last,
        take-length i 8 (omega (arith, exact.length-to_bytes u.io)),
        exact.of_bytes-to_bytes u.cpu,
        exact.of_bytes-to_bytes u.memory,
        exact.of_bytes-to_bytes u.io,
      )

  pub length-report_of : (u : Usage N) → length (report_of {N = N} u) ≡ 24
  unfolding report_of
  length-report_of u = omega (
    arith,
    length-append (N.to_bytes u.cpu) (N.to_bytes u.memory ++ N.to_bytes u.io),
    length-append (N.to_bytes u.memory) (N.to_bytes u.io),
    exact.length-to_bytes u.cpu,
    exact.length-to_bytes u.memory,
    exact.length-to_bytes u.io,
  )

  -- Asked by one byte, an inner server sends one message of its three usages, and what the
  -- distributor reads out of that message is these usages.
  pub report_round_trip :
      (mon_fd asked : ℕ) (rest : List Reply) (w : World (Vars N))
      → w.script ≡ input (asked ∷ []) ∷ done 24 ∷ rest
      → (report_turn mon_fd w
          ≡ returns tt (record {
            vars = w.vars;
            script = rest;
            trace =
                (write mon_fd (report_of w.vars.usage), done 24)
                ∷ (read mon_fd 1, input (asked ∷ []))
                ∷ w.trace;
          }))
        × (length (report_of w.vars.usage) ≡ 24)
        × (usage_of {N = N} (report_of w.vars.usage) ≡ w.vars.usage)
  unfolding report_turn get_stat syscall
  report_round_trip mon_fd asked rest w e =
      (simp e, length-report_of w.vars.usage, usage_of-report_of w.vars.usage)

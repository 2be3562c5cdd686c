-- ===== src/Feedback.antt =====
-- The monitor of servers/algorithm_distributor.cc with the inner servers of servers/inner_server.cc that
-- it polls: from the samples that these take of their machines to the distribution that the
-- requests are drawn from.
use gra_project.Base.{
  length-map, ℕ, ◌≡◌, refl, ap, ◌∙◌, subst, some, List, [], ◌∷◌, length, map, All, get_elem?,
}
use gra_project.Sys.{Reply, World}
use gra_project.Numbers.{Numbers}
use gra_project.Algorithm
use gra_project.Algorithm.{servers_num}
use gra_project.Algorithm.Monitor.{Usage, weight, finish_if_full, monitor_round}
use gra_project.Algorithm.Monitor.Weights.{Answer, replies_of, weights, monitor_round-weights}
use gra_project.Procmon.Ticks
use gra_project.Procmon.Ticks.{Machine}
use gra_project.Inner.Monitor.{report_of}
use gra_project.Inner.Reports.{Exact, usage_of-report_of, length-report_of}
use gra_project.Inner.Threads.{System, Reach}
use gra_project.Inner.Threads.Sampled.{Sampled, samples_of, reports_are_samples}

-- An inner server: where it started and where it is, the last report that it has sent, with the number
-- of its sample, and what became of the byte that asked for it.
pub record Server (N : Numbers) : Type 0 where
  pub machine : Machine N
  pub mon_fd : ℕ
  pub begun : World (Ticks.Vars N)
  pub now : System N
  pub number : ℕ
  pub usage : Usage N
  pub older : List (ℕ × Usage N)
  pub asked : Reply

module _ {N : Numbers} where
  -- Some interleaving of its threads has sent the report.
  abbrev pub IsReported : Server N → Type 0
  IsReported s =
      Reach s.machine s.mon_fd s.begun s.now × (s.now.sent ≡ (s.number, s.usage) ∷ s.older)

  -- The report is what one sample of its machine has left.
  abbrev pub IsSample : Server N → Type 0
  IsSample s = get_elem? (samples_of s.now) s.number ≡ some s.usage

  IsReported-IsSample : (s : Server N) → IsReported s → IsSample s
  IsReported-IsSample s h =
      (subst (Sampled (samples_of s.now) (length s.now.replaced)) h.1
        (reports_are_samples s.machine s.mon_fd s.begun s.now h.0)).1

  All-samples : (servers : List (Server N)) → All IsReported servers → All IsSample servers
  All-samples [] h = tt
  All-samples (s ∷ servers) h = (IsReported-IsSample s h.0, All-samples servers h.1)

  module _ (exact : Exact N) where
    abbrev pub answer_of : Server N → Answer
    answer_of s = record {
      sent = s.asked;
      report = report_of s.usage;
      whole = length-report_of exact s.usage;
    }

    weights-answer_of :
        (servers : List (Server N))
        → weights N (map answer_of servers) ≡ map (λ s. weight s.usage) servers
    weights-answer_of [] = refl
    weights-answer_of (s ∷ servers) =
        ap (λ u. weight u ∷ weights N (map answer_of servers)) (usage_of-report_of exact s.usage)
        ∙ ap (λ ws. weight s.usage ∷ ws) (weights-answer_of servers)

    -- A round in which four inner servers answer with their last reports, whatever their threads did
    -- before: the requests are from then on drawn with the weights of the usages of one sample of
    -- each, in the order of the servers.
    pub round_of_samples :
        (slept : Reply) (servers : List (Server N)) (rest : List Reply)
        (w : World (Algorithm.Vars N))
        → length servers ≡ servers_num
        → length w.vars.p ≡ servers_num
        → w.script ≡ slept ∷ replies_of (map answer_of servers) rest
        → All IsReported servers
        → (v : World (Algorithm.Vars N)) × (monitor_round w ≡ finish_if_full v)
          × (v.vars.d ≡ N.discrete (map (λ s. weight s.usage) servers))
          × All IsSample servers
    round_of_samples slept servers rest w n m e h =
        let (v, same, p, d, _, _) =
          monitor_round-weights slept (map answer_of servers) rest w
            (length-map answer_of servers ∙ n) m e in
        (v, same, d ∙ ap N.discrete (weights-answer_of servers), All-samples servers h)

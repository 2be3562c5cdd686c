-- ===== src/Capture/Termination.antt =====
-- tcpdump_my/my_grub.c: rules for the loops of the capture.
use gra_project.Base.{ℕ, true, false, none, some, Option, Bytes, ◌==◌, ltb, length}
use gra_project.Sys.{Outcome, ok, error, result, eagain, World, stored}
use gra_project.Sys.Consumes.{
  Takes, Takes-first, Takes-seq_first, Takes-pure, Takes-stop, Takes-exit, Takes-get, Takes-modify,
  Takes-syscall, Takes-if, Advances, Advances-Takes, Advances-last, Advances-get, Advances-if,
  Takes-loop-Advances, Takes-ok_or_exit,
}
use gra_project.Sys.Endless.{Halts, Endless, Endless-bind, Endless-seq, Endless-forever}
use gra_project.Net.Rules.{Takes-call, Takes-zero_or_exit, takes_rules}
use gra_project.Capture.{
  store_packet, headers_len, Vars, after_write, send_found, send_one, send_messages, capture_turn,
  be_promiscuous, ok_or_close, main, is_wanted, received,
}

Takes-after_write : (n : ℕ) (r : Outcome) → Takes 0 (after_write n r)
unfolding after_write
Takes-after_write n (ok k) = Takes-seq_first (Takes-modify _) (Takes-pure true)
Takes-after_write n (error e) = Takes-if (e == eagain) (Takes-pure false) (Takes-exit 0 1)

Takes-send_found : (fd : ℕ) (m : Option Bytes) → Takes 1 (send_found fd m)
unfolding send_found
Takes-send_found fd none = Takes-stop 1 _ (λ e. cc)
Takes-send_found fd (some m) =
    Takes-first (Takes-syscall _) λ r. Takes-after_write (length m) (result r)

Advances-send_one : (fd n : ℕ) → Advances (send_one fd n)
unfolding send_one
Advances-send_one fd n =
    Advances-get
      λ s. Advances-if (ltb s.cur n) (Advances-Takes (Takes-send_found fd _)) Advances-last

Takes-send_messages : (fd n : ℕ) → Takes 0 (send_messages fd n)
unfolding send_messages
Takes-send_messages fd n =
    Takes-seq_first (Takes-modify (λ s. record s { cur = headers_len }))
      (Takes-loop-Advances (Advances-send_one fd n))

Takes-capture_turn : (fd sock : ℕ) → Takes 1 (capture_turn fd sock)
unfolding capture_turn
Takes-capture_turn fd sock = Takes-first (Takes-syscall _) λ r.
    Takes-seq_first (Takes-modify (store_packet (stored r))) (
      Takes-first Takes-get λ s.
        Takes-if (is_wanted s.buffer) (Takes-send_messages fd (received (result r)))
          (Takes-pure tt))

Takes-ok_or_close : (sock : ℕ) (r : Outcome) → Takes 0 (ok_or_close sock r)
Takes-ok_or_close sock (ok n) = Takes-pure tt
Takes-ok_or_close sock (error e) = Takes-seq_first (search takes_rules) (Takes-exit 0 1)

Takes-be_promiscuous : (sock : ℕ) → Takes 0 (be_promiscuous sock)
unfolding be_promiscuous
Takes-be_promiscuous sock = Takes-first (Takes-call _) λ r.
    Takes-seq_first (Takes-ok_or_close sock (result r))
      (Takes-first (Takes-call _) λ t. Takes-ok_or_close sock (result t))

main-Endless : Endless main
unfolding main
main-Endless = Endless-bind (Takes-call _) λ r. Endless-bind (Takes-call _) λ c.
    Endless-seq (Takes-zero_or_exit (result c)) (
      Endless-seq (search takes_rules) (
        Endless-bind (Takes-call _) λ s. Endless-bind (Takes-ok_or_exit (result s)) λ sock.
          Endless-seq (Takes-be_promiscuous sock) (Endless-forever (Takes-capture_turn _ sock))))

pub capture-Halts : (w : World Vars) → Halts (main w)
capture-Halts w = main-Endless.at w

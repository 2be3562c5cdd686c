-- ===== src/Tests/Capture.antt =====
-- The capture on small packets.
use gra_project.Base.{ℕ, ◌≡◌, refl, arith, List, [], ◌∷◌, ◌++◌, Bytes, replicate, true}
use gra_project.Sys.{
  write, recvfrom, input, failed, eagain, undefined, Reply, World, returns, halts,
}
use gra_project.Sys.Endless.{Halts}
use gra_project.Capture.{Vars, buffer_size, is_wanted, capture_turn, main}
use gra_project.Capture.Split.{IsMessage, packet, taken, writes, after_receive, capture_turn_splits}
use gra_project.Capture.Faults.{IsLong, capture_turn_negative, capture_turn_drops}
use gra_project.Capture.Termination.{capture-Halts}

-- IPv4 to port 9527, with a TCP header of twenty bytes.
abbrev headers : Bytes
headers =
    replicate 14 0
    ++ (0x45 ∷ 0 ∷ 0 ∷ 72 ∷ replicate 18 0)
    ++ (37 ∷ 55 ∷ replicate 8 0)
    ++ (0x50 ∷ replicate 7 0)

headers_wanted : is_wanted headers ≡ true
unfolding is_wanted
headers_wanted = refl

abbrev message : ℕ → ℕ → Bytes
message len n = replicate 6 1 ++ (0 ∷ len ∷ replicate n 9)

message-IsMessage : IsMessage (message 8 8)
message-IsMessage = record {
  high = omega arith;
  low = omega arith;
  long = omega arith;
  counted = refl;
}

message-IsLong : IsLong (message 200 200)
message-IsLong = record {
  high = refl;
  low = omega arith;
  low_max = omega arith;
  long = omega arith;
}

abbrev started : List Reply → World Vars
started script = record {
  vars = record { buffer = replicate 2048 0; cur = 0 };
  script = script;
  trace = [];
}

abbrev two_messages : List Bytes
two_messages = message 8 8 ∷ message 8 8 ∷ []

capture_turn_splits_example :
    let script = input (packet headers two_messages) ∷ taken two_messages [] in
    (v : World Vars) × (capture_turn 3 4 (started script) ≡ returns tt v)
    × (v.script ≡ [])
    × (v.trace
        ≡ writes 3 two_messages
          ++ ((recvfrom 4 buffer_size, input (packet headers two_messages)) ∷ []))
capture_turn_splits_example =
    capture_turn_splits 3 4 headers two_messages []
      (started (input (packet headers two_messages) ∷ taken two_messages [])) refl headers_wanted
      (message-IsMessage, (message-IsMessage, tt)) (omega arith) refl

abbrev long_packet : List Bytes
long_packet = message 200 200 ∷ []

capture_turn_negative_example :
    capture_turn 3 4 (started (input (packet headers long_packet) ∷ []))
    ≡ halts undefined (
        after_receive 4
          (packet headers long_packet)
          []
          (started (input (packet headers long_packet) ∷ [])))
capture_turn_negative_example =
    capture_turn_negative 3 4 headers (message 200 200) [] []
      (started (input (packet headers long_packet) ∷ [])) refl headers_wanted message-IsLong
      (omega arith) refl

capture_turn_drops_example :
    let script = input (packet headers two_messages) ∷ failed eagain ∷ [] in
    (v : World Vars) × (capture_turn 3 4 (started script) ≡ returns tt v)
    × (v.script ≡ [])
    × (v.trace
        ≡ (write 3 (message 8 8), failed eagain)
          ∷ (recvfrom 4 buffer_size, input (packet headers two_messages))
          ∷ [])
capture_turn_drops_example =
    capture_turn_drops 3 4 headers (message 8 8) (message 8 8 ∷ []) []
      (started (input (packet headers two_messages) ∷ failed eagain ∷ [])) refl headers_wanted
      message-IsMessage (omega arith) refl

capture-Halts_example : Halts (main (started []))
capture-Halts_example = capture-Halts (started [])

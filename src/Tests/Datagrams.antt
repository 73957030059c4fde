-- ===== src/Tests/Datagrams.antt =====
-- A phone that asks for the addresses of one name.
use relaybaton.Common.{
  ◌≡◌, refl, true, none, some, [], ◌∷◌, ◌++◌, ◌=ℕ◌, if◌then◌else◌, length, replicate, ◌==◌,
  same_nat, same_string, bytes_beq, same_bytes, ok,
}
use relaybaton.Ip.Address.{Ip, to4}
use relaybaton.Bindings.Udp.{Question, a, aaaa, Line, line_of, Msg, Dns, lines, receive_to}
use relaybaton.Bindings.Udp.Answers.{receive_to-last}

abbrev asks : Question → Msg Line
asks q = record { id = 7; question = q ∷ []; answer = [] }

abbrev for_a : Question
for_a = record { name = "example.org"; qtype = a }

abbrev for_aaaa : Question
for_aaaa = record { name = "example.org"; qtype = aaaa }

abbrev six : Ip
six = 32 ∷ 1 ∷ 13 ∷ 184 ∷ replicate 12 0

abbrev dns : Dns
dns = record {
  Rr = Line;
  unpack_msg = λ b. if bytes_beq b (1 ∷ []) then some (asks for_a) else some (asks for_aaaa);
  set_reply = λ m. record m { answer = [] };
  pack_msg = λ m. some (length m.answer ∷ []);
  new_rr = λ l. if l.value == "<nil>" then none else some l;
  ip_text = λ ip.
      if length ip =ℕ 0
      then "<nil>"
      else if bytes_beq ip (192 ∷ 0 ∷ 2 ∷ 1 ∷ [])
      then "192.0.2.1"
      else "192.0.2.2";
  lookup_ip4 = λ name. some ((192 ∷ 0 ∷ 2 ∷ 1 ∷ []) ∷ (192 ∷ 0 ∷ 2 ∷ 2 ∷ []) ∷ []);
  lookup_ip6 = λ name. some (six ∷ []);
  lookup_txt = λ name. none;
  lookup_cname = λ name. none;
  lookup_mx = λ name. none;
  lookup_ns = λ name. none;
  writes = λ b. true;
}

found_a :
    lines dns for_a
    ≡ ok (
        some (
          (line_of "example.org" "A" "192.0.2.1" ∷ [])
          ++ line_of "example.org" "A" "192.0.2.2" ∷ []))
unfolding lines to4
found_a = refl

receive_to-last_example :
    receive_to dns 53 (1 ∷ []) ≡ record { datagrams = (1 ∷ []) ∷ []; error = none }
receive_to-last_example =
    receive_to-last dns (1 ∷ []) (asks for_a) for_a (line_of "example.org" "A" "192.0.2.1" ∷ [])
      (line_of "example.org" "A" "192.0.2.2") (line_of "example.org" "A" "192.0.2.2") (1 ∷ []) refl
      refl found_a (refl, tt) refl refl refl

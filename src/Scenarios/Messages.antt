-- ===== src/Scenarios/Messages.antt =====
-- A response with one answer, whose name is a pointer to the question's.
use colony_firewall_control.Prelude.{
  ◌+◌, ◌≤◌, ◌≡◌, refl, some, false, List, [], ◌∷◌, length, All, arith,
}
use colony_firewall_control.Packet.{Bytes}
use colony_firewall_control.Dns
use colony_firewall_control.Dns.{DnsCursor, u8_at, with_base, skip_name, max_answers, max_name_len}
use colony_firewall_control.Dns.Reading.{
  read_name, read_labels, read_round, read_label, follow, copy_label,
}
use colony_firewall_control.Dns.Records.{for_each_answer}
use colony_firewall_control.Dns.Skipped.{read_name-skip_name}
use colony_firewall_control.Dns.Written.{encode, joined, read_name-encode}
use colony_firewall_control.Dns.Answers.{IsAnswer, for_each_answer_le}

abbrev labels : List Bytes
labels = (97 ∷ []) ∷ (98 ∷ 99 ∷ []) ∷ []

abbrev response : Bytes
response =
    0 ∷ 1 ∷ 0x81 ∷ 0x80 ∷ 0 ∷ 1 ∷ 0 ∷ 1 ∷ 0 ∷ 0 ∷ 0 ∷ 0 ∷ 1 ∷ 97 ∷ 2 ∷ 98 ∷ 99 ∷ 0 ∷ 0 ∷ 1 ∷ 0 ∷ 1
    ∷ 0xc0 ∷ 12 ∷ 0 ∷ 1 ∷ 0 ∷ 1 ∷ 0 ∷ 0 ∷ 0 ∷ 60 ∷ 0 ∷ 4 ∷ 192 ∷ 0 ∷ 2 ∷ 1 ∷ []

abbrev message : DnsCursor
message = Dns.new response

read_name-encode_example :
    read_name message 12 ≡ some (joined [] labels, 12 + length (encode labels))
unfolding Dns.new with_base u8_at
read_name-encode_example =
    read_name-encode message 12 labels (refl, (refl, (refl, (refl, (refl, (refl, tt))))))
      ((omega arith, omega arith), ((omega arith, omega arith), tt)) (omega arith) (omega arith)

-- The owner of the answer.
pointed : read_name message 22 ≡ some (97 ∷ 46 ∷ 98 ∷ 99 ∷ [], 24)
unfolding read_name read_labels read_round follow read_label copy_label Dns.new with_base u8_at
pointed = refl

read_name-skip_name_example : skip_name message 22 ≡ some 24
read_name-skip_name_example = read_name-skip_name message 22 (97 ∷ 46 ∷ 98 ∷ 99 ∷ []) 24 pointed

for_each_answer_le_example :
    All IsAnswer (for_each_answer message) × (length (for_each_answer message) ≤ max_answers)
for_each_answer_le_example = for_each_answer_le message

-- One answer is handed over.
one_answer :
    for_each_answer message
    ≡ record { ip = 192 ∷ 0 ∷ 2 ∷ 1 ∷ []; is_v6 = false; name = 97 ∷ 46 ∷ 98 ∷ 99 ∷ []; ttl = 60 }
      ∷ []
unfolding for_each_answer Dns.new with_base u8_at
one_answer = refl

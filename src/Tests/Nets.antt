-- ===== src/Tests/Nets.antt =====
-- Addresses and networks for the tests: a few texts that stand for an address or a network of one.
use colnk.Common.{ℕ, codes, bytes_beq, none, some, false, nat_beq, if◌then◌else◌}
use colnk.Common.Net.{v4, v6, Net}

abbrev pub some_net : Net ℕ
some_net = record {
  parse_ip = λ text.
      if bytes_beq text (codes "100.64.0.1")
      then some (v4 1)
      else if bytes_beq text (codes "10.0.0.7")
      then some (v4 7)
      else if bytes_beq text (codes "::1")
      then some (v6 1)
      else none;
  parse_cidr = λ text.
      if bytes_beq text (codes "100.64.0.1/32")
      then some (v4 1, 1)
      else if bytes_beq text (codes "10.0.0.7/32")
      then some (v4 7, 7)
      else if bytes_beq text (codes "::1/128")
      then some (v6 1, 0)
      else none;
  contains = λ network ip. elim ip [ v4 a ↦ nat_beq network a | v6 _ ↦ false ];
}

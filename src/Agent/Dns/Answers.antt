-- ===== src/Agent/Dns/Answers.antt =====
-- What the resolver of pkg/agent/network/dns.go answers.
use colnk.Common.{
  ◌≡◌, refl, sym, inl, inr, Bytes, List, [], ◌∷◌, none, some, Bool, true, false, not, ◌&&◌,
  if◌then◌else◌, All, All-append, Result, nat_beq, arith, Bool-cases, Result-cases,
}
use colnk.Common.Net.{Ip, is_v4, Net}
use colnk.Protocol.Types.{NetworkPolicy}
use colnk.Agent.Dns.{
  Question, Answer, a, aaaa, answers, type_a, type_aaaa, is_local_name, allowed_ip, answer_for,
  answer_value, answer_values, serve_dns,
}

All-if {ℓ κ} :
    {A : Type ℓ} (P : A → Type κ) (b : Bool) (xs ys : List A)
    → (b ≡ true → All P xs)
    → (b ≡ false → All P ys)
    → All P (if b then xs else ys)
All-if P true xs ys hx hy = hx refl
All-if P false xs ys hx hy = hy refl

module _ {Network : Type 0} (net : Net Network) (networks : List Network)
    (question : Question) where
  -- An answer to the question, of the type that it asks for, by an address in one of the networks.
  abbrev pub IsProper : Answer → Type 0
  IsProper (a name ip) =
      (name ≡ question.name)
      × (question.qtype ≡ type_a)
      × (is_v4 ip ≡ true)
      × (allowed_ip net networks (some ip) ≡ true)
  IsProper (aaaa name ip) =
      (name ≡ question.name)
      × (question.qtype ≡ type_aaaa)
      × (is_v4 ip ≡ false)
      × (allowed_ip net networks (some ip) ≡ true)

  answer_for-IsProper :
      (ip : Ip)
      → allowed_ip net networks (some ip) ≡ true
      → All IsProper (answer_for net question ip)
  answer_for-IsProper ip h =
      All-if IsProper (nat_beq question.qtype type_a && is_v4 ip) _ _
        (λ e. ((refl, ground arith, ground arith, h), tt))
        (λ _.
          All-if IsProper (nat_beq question.qtype type_aaaa && not (is_v4 ip)) _ _
            (λ e. ((refl, ground arith, ground arith, h), tt)) (λ _. tt))

  answer_value-IsProper : (value : Bytes) → All IsProper (answer_value net networks question value)
  unfolding answer_value
  answer_value-IsProper value =
      elim (net.parse_ip value)
        as (λ o. All IsProper (elim o [
          | none ↦ []
          | some ip ↦ if allowed_ip net networks (some ip) then answer_for net question ip else []
        ])) [
          | none ↦ tt
          | some ip ↦
              All-if IsProper (allowed_ip net networks (some ip)) _ _ (answer_for-IsProper ip)
                (λ _. tt)
        ]

  answer_values-IsProper :
      (values : List Bytes) → All IsProper (answer_values net networks question values)
  unfolding answer_values
  answer_values-IsProper [] = tt
  answer_values-IsProper (value ∷ values) =
      All-append IsProper (answer_value net networks question value) _ (answer_value-IsProper value)
        (answer_values-IsProper values)

-- Whatever the other end answers to a lookup, each address that the resolver passes on is one of the
-- question's name and type and lies in one of the networks of the policy.
pub serve_dns-IsProper :
    {Network : Type 0} (net : Net Network) (policy : NetworkPolicy) (networks : List Network)
    (lookup_dns : Bytes → Result (List Bytes)) (question : Question) (passed : List Answer)
    → serve_dns net policy networks lookup_dns (question ∷ []) ≡ answers passed
    → All (IsProper net networks question) passed
unfolding serve_dns
serve_dns-IsProper net policy networks lookup_dns question passed h =
    elim (Bool-cases (is_local_name policy question.name)) [
      | inr e ↦ ground (arith, e)
      | inl e ↦ elim (Result-cases (lookup_dns question.name)) [
        | inr (x, q) ↦ ground (arith, e, q)
        | inl (values, q) ↦
            let k : answer_values net networks question values ≡ passed = ground (arith, e, q) in
            rw (sym k) (answer_values-IsProper net networks question values)
      ]
    ]

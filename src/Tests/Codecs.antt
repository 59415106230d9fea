-- ===== src/Tests/Codecs.antt =====
-- Codecs for the tests: a JSON codec that knows one value, and a compressor for one payload.
use mathlib.Core.Logic.{ite, if_pos}
use native.Mathlib.Decide.{ℕ_discrete}
use colnk.Common.{◌≡◌, refl, List, [], ◌∷◌, none, some, true, arith}
use colnk.Protocol.Types.{Request, Response, DirEntry, Handshake, HandshakeAck}
use colnk.Protocol.Frame.{Json, JsonLaws}
use colnk.Protocol.Payload.{Flate, FlateLaws}

abbrev pub one_value : {A : Type 0} → Discrete A → A → Json A
one_value dec v = record {
  marshal = λ w. ite (dec w v) (some (b'{' ∷ b'}' ∷ [])) none;
  unmarshal = λ _. some v;
}

pub one_value-JsonLaws :
    {A : Type 0} (IsPassed : A → Type 0) (dec : Discrete A) (v : A)
    → JsonLaws IsPassed (one_value dec v)
one_value-JsonLaws IsPassed dec v = record {
  nonempty = λ w d h. ground arith;
  unmarshal-marshal = λ w d q h. ground (arith, h);
}

pub Request-discrete : Discrete Request
Request-discrete = hlevel ℕ_discrete

pub Response-discrete : Discrete Response
Response-discrete = hlevel ℕ_discrete

pub entries-discrete : Discrete (List DirEntry)
entries-discrete = hlevel ℕ_discrete

-- No payload of the tests is long enough to be compressed.
abbrev pub no_flate : Flate
no_flate = record { compress = λ _. none; inflate = λ d. (d, true) }

pub no_flate-FlateLaws : FlateLaws no_flate
no_flate-FlateLaws = record { inflate-compress = λ d c h. ground arith }

pub one_value-marshal :
    {A : Type 0} (dec : Discrete A) (v : A) → (one_value dec v).marshal v ≡ some (b'{' ∷ b'}' ∷ [])
one_value-marshal dec v = if_pos (dec v v) refl _ _

pub Handshake-discrete : Discrete Handshake
Handshake-discrete = hlevel ℕ_discrete

pub HandshakeAck-discrete : Discrete HandshakeAck
HandshakeAck-discrete = hlevel ℕ_discrete

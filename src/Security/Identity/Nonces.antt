-- ===== src/Security/Identity/Nonces.antt =====
-- The nonce cache and the ids of tokens.
use forgelet.Prelude.{
  ◌≡◌, ◌<◌, ◌+◌, true, false, some, lookup, lookup-insert, text_key, arith, ap, All, List, Text,
  Map, [], ◌∷◌,
}
use forgelet.Run.Records.{Time}
use forgelet.Security.Identity.{MemoryNonceCache, claim, evict, is_replay}

evict-lookup :
    (now : Time) (id : Text) (exp : Time) (m : Map Text Time)
    → lookup id m ≡ some exp
    → now < exp
    → lookup id (evict now m) ≡ some exp
unfolding evict lookup
evict-lookup now id exp [] e h = cc
evict-lookup now id exp ((j, x) ∷ m) e h = ground (arith, evict-lookup now id exp m)

-- An entry that has not run out survives a claim of any id.
claim-keeps :
    (now : Time) (id j : Text) (exp : Time) (c : MemoryNonceCache)
    → lookup id c.seen ≡ some exp
    → now < exp
    → (lookup id (claim now j c).0.seen ≡ some exp) × ((claim now j c).0.ttl ≡ c.ttl)
unfolding claim is_replay
claim-keeps now id j exp c e h = elim (text_key.dec j id) [
  | yes p ↦ ground (arith, ap (λ (k : Text). lookup k c.seen) p)
  | no n ↦ ground (
    arith,
    evict-lookup now id exp c.seen,
    lookup-insert j id (now + c.ttl) c.seen,
    lookup-insert j id (now + c.ttl) (evict now c.seen),
  )
]

-- A series of claims.
unfoldable pub claims : List (Time × Text) → MemoryNonceCache → MemoryNonceCache
claims [] c = c
claims ((now, id) ∷ cs) c = claims cs (claim now id c).0

claims-keep :
    (id : Text) (exp : Time) (cs : List (Time × Text)) (c : MemoryNonceCache)
    → lookup id c.seen ≡ some exp
    → All (λ (x : Time × Text). x.0 < exp) cs
    → lookup id (claims cs c).seen ≡ some exp
unfolding claims
claims-keep id exp [] c e h = e
claims-keep id exp ((now, j) ∷ cs) c e h =
    claims-keep id exp cs (claim now j c).0 (claim-keeps now id j exp c e h.0).0 h.1

claim-stores :
    (now : Time) (id : Text) (c : MemoryNonceCache)
    → (claim now id c).1 ≡ true
    → lookup id (claim now id c).0.seen ≡ some (now + c.ttl)
unfolding claim
claim-stores now id c h = ground (
  arith,
  lookup-insert id id (now + c.ttl) c.seen,
  lookup-insert id id (now + c.ttl) (evict now c.seen),
)

-- A token id that was accepted is refused for its whole lifetime, whatever ids are claimed in
-- between and however often the cache is swept.
pub claim_once :
    (now now' : Time) (id : Text) (c : MemoryNonceCache) (between : List (Time × Text))
    → (claim now id c).1 ≡ true
    → All (λ (x : Time × Text). x.0 < now + c.ttl) between
    → now' < now + c.ttl
    → (claim now' id (claims between (claim now id c).0)).1 ≡ false
unfolding claim is_replay
claim_once now now' id c between h b l =
    let kept =
      claims-keep id (now + c.ttl) between (claim now id c).0 (claim-stores now id c h) b in
    ground (arith, kept)

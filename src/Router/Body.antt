-- ===== src/Router/Body.antt =====
-- `RoutedResponse::bytes_limited` of src/request_router.rs, on the chunks that the body yields.
use paperbridge.Prelude.{
  Bool-cases, List, [], append-nil, append_assoc, arith, concat, if◌then◌else◌, inl, inr, length,
  length-append, ltb, refl, ℕ, ◌++◌, ◌+◌, ◌-◌, ◌<◌, ◌^◌, ◌∷◌, ◌≡◌, ◌≤◌,
}
use paperbridge.Text.{Text}
use paperbridge.Router.Latency.{saturating_add}

-- A chunk of the body, or the error of the transport.
pub data Chunk : Type 0 where
  chunk : Text → Chunk
  broken : Chunk

pub data Body : Type 0 where
  bytes : Text → Body
  too_long : ℕ → Body
  transport : Body

-- The loop, with the bytes read so far.
unfoldable pub read_chunks : ℕ → Text → List Chunk → Body
read_chunks max_bytes body [] = bytes body
read_chunks max_bytes body (broken ∷ chunks) = transport
read_chunks max_bytes body (chunk c ∷ chunks) =
    let rest = read_chunks max_bytes (body ++ c) chunks in
    if ltb max_bytes (saturating_add (length body) (length c)) then too_long max_bytes else rest

unfoldable pub bytes_limited : ℕ → List Chunk → Body
bytes_limited max_bytes chunks = read_chunks max_bytes [] chunks

-- The bytes of a body whose transport does not fail.
abbrev pub chunks_of : List Text → List Chunk
chunks_of [] = []
chunks_of (c ∷ cs) = chunk c ∷ chunks_of cs

read_chunks-fits :
    (max_bytes : ℕ) (body : Text) (cs : List Text)
    → length body + length (concat cs) ≤ max_bytes
    → max_bytes < 2 ^ 64
    → read_chunks max_bytes body (chunks_of cs) ≡ bytes (body ++ concat cs)
unfolding read_chunks
read_chunks-fits max_bytes body [] fits few = rw (append-nil body) refl
read_chunks-fits max_bytes body (c ∷ cs) fits few =
    let sizes = length-append c (concat cs) in
    let sizes' = length-append body c in
    let rest = read_chunks-fits max_bytes (body ++ c) cs (omega arith) few in
    ground (arith, rest, append_assoc body c (concat cs))

read_chunks-exceeds :
    (max_bytes : ℕ) (body : Text) (cs : List Text)
    → length body ≤ max_bytes
    → max_bytes < length body + length (concat cs)
    → max_bytes < 2 ^ 64 - 1
    → read_chunks max_bytes body (chunks_of cs) ≡ too_long max_bytes
unfolding read_chunks
read_chunks-exceeds max_bytes body [] small exceeds few = ground arith
read_chunks-exceeds max_bytes body (c ∷ cs) small exceeds few =
    let sizes = length-append c (concat cs) in
    let sizes' = length-append body c in
    elim (Bool-cases (ltb max_bytes (saturating_add (length body) (length c)))) [
      | inl over ↦ rw over refl
      | inr under ↦
          rw under (read_chunks-exceeds max_bytes (body ++ c) cs (ground arith) (omega arith) few)
    ]

-- With a limit below 2^64 - 1: a body that arrives whole is returned as it is if it fits in the
-- limit, and is an error if it does not, however it is split into chunks.
pub bytes_limited-exact :
    (max_bytes : ℕ) (cs : List Text)
    → max_bytes < 2 ^ 64 - 1
    → (length (concat cs) ≤ max_bytes → bytes_limited max_bytes (chunks_of cs) ≡ bytes (concat cs))
      × (max_bytes < length (concat cs)
          → bytes_limited max_bytes (chunks_of cs) ≡ too_long max_bytes)
unfolding bytes_limited
bytes_limited-exact max_bytes cs few = (
  (λ fits. read_chunks-fits max_bytes [] cs (omega arith) (omega arith)),
  (λ exceeds. read_chunks-exceeds max_bytes [] cs (omega arith) (omega arith) few),
)

read_chunks-bound :
    (max_bytes : ℕ) (body : Text) (chunks : List Chunk) {read : Text}
    → length body ≤ max_bytes
    → max_bytes < 2 ^ 64 - 1
    → read_chunks max_bytes body chunks ≡ bytes read
    → length read ≤ max_bytes
unfolding read_chunks
read_chunks-bound max_bytes body [] {read} small few h = ground arith
read_chunks-bound max_bytes body (broken ∷ chunks) small few h = ground arith
read_chunks-bound max_bytes body (chunk c ∷ chunks) {read} small few h =
    let sizes = length-append body c in
    elim (Bool-cases (ltb max_bytes (saturating_add (length body) (length c)))) [
      | inl over ↦ ground arith
      | inr under ↦
          read_chunks-bound max_bytes (body ++ c) chunks (ground arith) few (rw under at h)
    ]

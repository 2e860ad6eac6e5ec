-- ===== src/Broker/Reader/Framing.antt =====
-- How `handle_client` cuts the stream into lines: the result depends on the bytes alone, not on the
-- chunks in which `recv` delivers them.
use dynvar_sync.Base.{
  ℕ, zero, suc, ◌==◌, String, List, [], ◌∷◌, ◌++◌, Option, none, some, Option-cases, List-cases,
  if◌then◌else◌, length, ◌≡◌, refl, arith, ◌≤◌, ◌<◌, inl, inr, All, ap, append_assoc, append-nil,
  ◌≢◌,
}
use dynvar_sync.Broker.Protocol.{Bytes, Runtime}
use dynvar_sync.Broker.Sessions.{Server}
use dynvar_sync.Broker.Reader.{
  newline, split_line, Turn, process_line, drain, started, receive, finish, handle_client,
}

-- The complete lines of a stream, without their newlines, and what follows the last newline.
extend : ℕ → List Bytes → Bytes → List Bytes × Bytes
extend c [] t = ([], c ∷ t)
extend c (l ∷ ls) t = ((c ∷ l) ∷ ls, t)

pub split : Bytes → List Bytes × Bytes
unfolding extend
split [] = ([], [])
split (c ∷ cs) = let (ls, t) = split cs in if c == newline then ([] ∷ ls, t) else extend c ls t

pub split-nil : split [] ≡ ([], [])
unfolding split
split-nil = refl

pub split_line-none : (b : Bytes) → split_line b ≡ none → split b ≡ ([], b)
unfolding split split_line
split_line-none [] h = refl
split_line-none (c ∷ cs) h = ground (arith, split_line-none cs)

pub split_line-some :
    (b line rest : Bytes)
    → split_line b ≡ some (line, rest)
    → (split b ≡ (line ∷ (split rest).0, (split rest).1)) × (length rest < length b)
unfolding split split_line
split_line-some [] line rest h = cc
split_line-some (c ∷ cs) line rest h = elim (Option-cases (split_line cs)) [
  | inl e ↦ ground (arith, split_line-none cs)
  | inr ((l, t), e) ↦ ground (arith, split_line-some cs l t e)
]

pub split-append :
    (a b : Bytes)
    → split (a ++ b) ≡ ((split a).0 ++ (split ((split a).1 ++ b)).0, (split ((split a).1 ++ b)).1)
unfolding split extend
split-append [] b = refl
split-append (c ∷ cs) b = ground (arith, split-append cs b, List-cases (split cs).0)

-- What is left of a buffer holds no newline.
pub split-rest : (b : Bytes) → split (split b).1 ≡ ([], (split b).1)
unfolding split extend
split-rest [] = refl
split-rest (c ∷ cs) = ground (arith, split-rest cs, List-cases (split cs).0)

-- All the bytes that `recv` delivers.
pub stream : List Bytes → Bytes
stream [] = []
stream (chunk ∷ chunks) = chunk ++ stream chunks

module _ (r : Runtime) (sock : ℕ) (address : String) where
  -- The lines of the stream in turn, up to the first that raises.
  pub serve : List Bytes → Option ℕ → Server → Turn
  serve [] session s = started r sock address session s
  serve (line ∷ lines) session s =
      let t = process_line r sock address line session s in
      elim t.raised [ none ↦ serve lines t.session t.server | some e ↦ t ]

  drain-serve :
      (fuel : ℕ) (b : Bytes) (session : Option ℕ) (s : Server)
      → length b ≤ fuel
      → ((drain r sock address fuel b session s).1 ≡ serve (split b).0 session s)
        × ((drain r sock address fuel b session s).1.raised ≡ none
            → (drain r sock address fuel b session s).0 ≡ (split b).1)
  unfolding drain serve
  drain-serve zero [] session s h = (unfold split in refl, λ _. unfold split in refl)
  drain-serve zero (c ∷ cs) session s h = absurd (omega arith)
  drain-serve (suc fuel) b session s h = elim (Option-cases (split_line b)) [
    | inl e ↦ ground (arith, split_line-none b)
    | inr ((line, rest), e) ↦ ground (
      arith,
      split_line-some b line rest,
      drain-serve fuel rest (process_line r sock address line session s).session
          (process_line r sock address line session s).server,
    )
  ]

  serve-append :
      (ls ms : List Bytes) (session : Option ℕ) (s : Server)
      → serve (ls ++ ms) session s ≡ (elim (serve ls session s).raised as (λ _. Turn) [
        | none ↦ serve ms (serve ls session s).session (serve ls session s).server
        | some e ↦ serve ls session s
      ])
  unfolding serve
  serve-append [] ms session s = refl
  serve-append (l ∷ ls) ms session s =
      let t = process_line r sock address l session s in
      ground (arith, serve-append ls ms t.session t.server)

  receive-serve_from :
      (chunks : List Bytes) (buffer : Bytes) (session : Option ℕ) (s : Server)
      → All (λ chunk. chunk ≢ []) chunks
      → split buffer ≡ ([], buffer)
      → receive r sock address chunks buffer session s
        ≡ serve (split (buffer ++ stream chunks)).0 session s
  unfolding receive stream
  receive-serve_from [] buffer session s full clean =
      rw (append-nil buffer) (rw clean (unfold serve in refl))
  receive-serve_from (chunk ∷ chunks) buffer session s full clean =
      let b = buffer ++ chunk in
      let (rest, t) = drain r sock address (length b) b session s in
      ground (
        arith,
        List-cases chunk,
        full.0,
        append_assoc buffer chunk (stream chunks),
        drain-serve (length b) b session s (omega arith),
        split-append b (stream chunks),
        split-rest b,
        serve-append (split b).0 (split ((split b).1 ++ stream chunks)).0 session s,
        receive-serve_from chunks rest t.session t.server full.1,
      )

  -- What a connection does to the broker is what its complete lines do, one after the other, however
  -- `recv` cuts the stream into chunks. No chunk is empty, since an empty one is the end.
  pub handle_client-serve :
      (chunks : List Bytes) (s : Server)
      → All (λ chunk. chunk ≢ []) chunks
      → handle_client r sock address chunks s
        ≡ finish r sock address (serve (split (stream chunks)).0 none s)
  unfolding handle_client
  handle_client-serve chunks s full =
      ap (finish r sock address) (receive-serve_from chunks [] none s full (unfold split in refl))

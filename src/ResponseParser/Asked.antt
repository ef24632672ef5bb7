-- ===== src/ResponseParser/Asked.antt =====
-- The request to close a connection, at the end of a message that the end of the input completes.
use cpp_request.Base.{
  ap, ◌⊎◌, inl, inr, both, ◌≡◌, refl, sym, true, false, not, ◌&&◌, some, Bytes, length, is_empty,
  Bool, arith,
}
use mathlib.Core.Path.{subst}
use cpp_request.Error.{Result, ok, err, ok-injective}
use cpp_request.Limits.{would_exceed}
use cpp_request.ResponseParser.State.{
  ResponseParser, ResponseParseProgress, Stage, reading_head, content_length_body,
  close_delimited_body, chunked_body, completed,
}
use cpp_request.ResponseParser.Body.{drain_buffer}
use cpp_request.ResponseParser.{
  finish_drained, finish_at, finish_eof, feed, connection_reusable, is_complete, is_completed,
}
use cpp_request.ResponseParser.Reuse.{asks_to_close, IsKept, KeptIn, feed-IsKept, feed-ResultKept}

-- The flag of the request to close is that request.
abbrev pub IsAsked : ResponseParser → Type 0
IsAsked p = p.connection_close_requested ≡ asks_to_close p

drained-IsAsked : (p q : ResponseParser) → IsAsked p → drain_buffer p ≡ ok q → IsAsked q
unfolding drain_buffer
drained-IsAsked p q a =
    let P : Result ResponseParser → Type 0 = λ r. r ≡ ok q → IsAsked q in
    both P (p.body_forbidden && not (is_empty p.buffer)) (λ h. cc)
      (both P (is_empty p.buffer) (λ h. subst IsAsked (ok-injective h) a)
        (both P (would_exceed (length p.response.body) (length p.buffer) p.limits.max_body_bytes)
          (λ h. cc) (λ h. subst IsAsked (ok-injective h) a)))

finish_drained-IsAsked :
    (p : ResponseParser) (r : Result ResponseParser) (x : ResponseParseProgress)
    → ((q : ResponseParser) → r ≡ ok q → IsAsked q)
    → (finish_drained p r).result ≡ ok x
    → ((finish_drained p r).parser.stage ≡ completed) × IsAsked (finish_drained p r).parser
unfolding finish_drained
finish_drained-IsAsked p (err e) x a h = cc
finish_drained-IsAsked p (ok q) x a h = (refl, a q refl)

finish_at-IsAsked :
    (s : Stage) (p : ResponseParser) (x : ResponseParseProgress)
    → p.stage ≡ s
    → KeptIn s p
    → (finish_at s p).result ≡ ok x
    → ((finish_at s p).parser.stage ≡ completed) × IsAsked (finish_at s p).parser
unfolding finish_at
finish_at-IsAsked close_delimited_body p x e k h =
    finish_drained-IsAsked p (drain_buffer p) x (λ q. drained-IsAsked p q k) h
finish_at-IsAsked completed p x e k h = (e, k.1)
finish_at-IsAsked content_length_body p x e k h = cc
finish_at-IsAsked reading_head p x e k h = cc
finish_at-IsAsked chunked_body p x e k h = cc

pub finish_eof-IsAsked :
    (p : ResponseParser) (x : ResponseParseProgress)
    → IsKept p
    → (finish_eof p).result ≡ ok x
    → ((finish_eof p).parser.stage ≡ completed) × IsAsked (finish_eof p).parser
unfolding finish_eof
finish_eof-IsAsked p x k h = finish_at-IsAsked p.stage p x refl k h

-- A result of `feed` without an error, whichever it is.
pub fed-IsKept :
    (p q : ResponseParser) (bytes : Bytes) (x : ResponseParseProgress)
    → IsKept p
    → feed p bytes ≡ some (record { parser = q; result = ok x })
    → IsKept q
fed-IsKept p q bytes ResponseParseProgress.need_more k h = feed-IsKept p q bytes k h
fed-IsKept p q bytes ResponseParseProgress.complete k h =
    let (e, c) =
      feed-ResultKept p bytes (record { parser = q; result = ok ResponseParseProgress.complete }) k
        h in
    subst (λ s. KeptIn s q) (sym e) c

-- What is known of a parser between two calls: its flags fit its stage, or its message is complete.
abbrev pub IsFair : ResponseParser → Type 0
IsFair p = IsKept p ⊎ ((p.stage ≡ completed) × IsAsked p)

fair-Stage :
    (s : Stage) (p : ResponseParser) → p.stage ≡ s → KeptIn s p → is_completed s ≡ true → IsAsked p
fair-Stage completed p e k h = k.1
fair-Stage reading_head p e k h = cc
fair-Stage content_length_body p e k h = cc
fair-Stage close_delimited_body p e k h = cc
fair-Stage chunked_body p e k h = cc

-- A complete message of a connection that may be used again does not ask for its end.
pub fair-asks :
    (p : ResponseParser) → IsFair p → connection_reusable p ≡ true → asks_to_close p ≡ false
unfolding connection_reusable is_complete
fair-asks p (inl k) h = ground (arith, fair-Stage p.stage p refl k (ground arith))
fair-asks p (inr (e, a)) h = ground (arith, a)

not_both : {b : Bool} → b ≡ true → b ≡ false → ⊥
not_both h k = cc

unfinished : (p : ResponseParser) → IsFair p → is_complete p ≡ false → IsKept p
unfolding is_complete
unfinished p (inl k) u = k
unfinished p (inr (e, a)) u = absurd (not_both (ap is_completed e) u)

-- Feeding a message that is not complete, and ending its input, keep this.
pub fed-IsFair :
    (p : ResponseParser) (bytes : Bytes) (q : ResponseParser) (x : ResponseParseProgress)
    → IsFair p
    → is_complete p ≡ false
    → feed p bytes ≡ some (record { parser = q; result = ok x })
    → IsFair q
fed-IsFair p bytes q x f u h = inl (fed-IsKept p q bytes x (unfinished p f u) h)

pub finished-IsFair :
    (p : ResponseParser) (x : ResponseParseProgress)
    → IsFair p
    → is_complete p ≡ false
    → (finish_eof p).result ≡ ok x
    → IsFair (finish_eof p).parser
finished-IsFair p x f u h = inr (finish_eof-IsAsked p x (unfinished p f u) h)

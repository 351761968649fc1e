-- ===== src/Negotiate/Smtp/Fuel.antt =====
-- src/cert.rs: the loop of `smtp_read_response` ends, whatever the peer sends.
use gentlsa.Prelude.{
  ℕ, zero, suc, ◌<◌, ◌≡◌, ◌≢◌, refl, [], inl, inr, Text, Bool, true, false, List, ltb, length,
  arith, Option-cases, not, none, some, ◌&&◌, take, drop, sym, ap, codes, join, if◌then◌else◌,
}
use mathlib.Core.Path.{subst}
use gentlsa.Prelude.Decimal.{parse_u16}
use gentlsa.Negotiate.{
  M, return, fail_if, short_response, too_many_lines, panics, bad_status, Failure, out_of_fuel,
  Outcome, ok, err, Stream, read_crlf_line,
}
use gentlsa.Negotiate.Line.{read_crlf_line-shorter, read_crlf_line-fueled}
use gentlsa.Negotiate.Smtp.{
  max_response_lines, at_boundary, parse_status, reply_line, push_message, response_loop,
  smtp_read_response,
}

-- A part that reads nothing and has fuel.
abbrev Quiet : {A : Type 0} → Stream → Outcome A → Type 0
Quiet s (ok _ s') = s' ≡ s
Quiet s (err e) = e ≢ out_of_fuel

module _ {A B : Type 0} where
  then-Quiet :
      (s : Stream) (o : Outcome A) (k : A → M B)
      → Quiet s o
      → ((a : A) → Quiet s (k a s))
      → Quiet s (elim o [ ok a s' ↦ k a s' | err e ↦ err e ])
  then-Quiet s (ok a s') k h rest = subst (λ t. Quiet s (k a t)) (sym h) (rest a)
  then-Quiet s (err e) k h rest = h

  -- A part with fuel, and behind it a continuation that has fuel wherever it is reached.
  then-fueled :
      (o : Outcome A) (k : A → M B)
      → o ≢ err out_of_fuel
      → ((a : A) (s : Stream) → o ≡ ok a s → k a s ≢ err out_of_fuel)
      → elim o as (λ _. Outcome B) [ ok a s' ↦ k a s' | err e ↦ err e ] ≢ err out_of_fuel
  then-fueled (ok a s) k h rest = rest a s refl
  then-fueled (err e) k h rest = λ x. h (cc x)

fail_if-Quiet : (c : Bool) (x : Failure) (s : Stream) → x ≢ out_of_fuel → Quiet s (fail_if c x s)
fail_if-Quiet true x s h = h
fail_if-Quiet false x s h = refl

Quiet-fueled : {A : Type 0} (s : Stream) (o : Outcome A) → Quiet s o → o ≢ err out_of_fuel
Quiet-fueled s (ok a s') h = λ x. cc x
Quiet-fueled s (err e) h = λ x. h (cc x)

Quiet-same : {A : Type 0} (s s' : Stream) (o : Outcome A) (a : A) → Quiet s o → o ≡ ok a s' → s' ≡ s
Quiet-same s s' (ok a' s'') a h e = cc (h, e)
Quiet-same s s' (err x) a h e = absurd (cc e)

parse_status-Quiet : (digits : Text) (s : Stream) → Quiet s (parse_status digits s)
unfolding parse_status
parse_status-Quiet digits s = elim (Option-cases (parse_u16 digits)) [
  | inl n ↦
      subst (λ o. Quiet s (elim o [ none ↦ err bad_status | some code ↦ ok code s ])) (sym n)
        (λ x. cc x)
  | inr (code, n) ↦
      subst (λ o. Quiet s (elim o [ none ↦ err bad_status | some code ↦ ok code s ])) (sym n) refl
]

reply_line-Quiet : (line : Text) (s : Stream) → Quiet s (reply_line line s)
unfolding reply_line
reply_line-Quiet line s =
    then-Quiet s (fail_if (ltb (length line) 3) short_response s) _
      (fail_if-Quiet _ short_response s (λ x. cc x))
      λ _.
        then-Quiet s (fail_if (not (at_boundary (drop 3 line))) panics s) _
          (fail_if-Quiet _ panics s (λ x. cc x))
          λ _. then-Quiet s (parse_status (take 3 line) s) _ (parse_status-Quiet _ s) λ code.
            then-Quiet s (fail_if (ltb 4 (length line) && not (at_boundary (drop 4 line))) panics s)
              _ (fail_if-Quiet _ panics s (λ x. cc x)) λ _. refl

either-fueled :
    {A : Type 0} (c : Bool) (m k : M A) (s : Stream)
    → m s ≢ err out_of_fuel
    → k s ≢ err out_of_fuel
    → (if c then m else k) s ≢ err out_of_fuel
either-fueled true m k s h h' = h
either-fueled false m k s h h' = h'

response_loop-fueled :
    (fuel : ℕ) (messages : List Text) (s : Stream)
    → length s.input < fuel
    → response_loop fuel messages s ≢ err out_of_fuel
unfolding response_loop
response_loop-fueled zero messages s h = absurd (omega (arith, h))
response_loop-fueled (suc fuel) messages s h =
    then-fueled (fail_if (ltb max_response_lines (length messages)) too_many_lines s) _
      (Quiet-fueled s _ (fail_if-Quiet _ too_many_lines s (λ x. cc x)))
      λ _ s₁ e₁. then-fueled (read_crlf_line s₁) _ (read_crlf_line-fueled s₁) λ line s₂ e₂.
        then-fueled (reply_line line s₂) _ (Quiet-fueled s₂ _ (reply_line-Quiet line s₂)) λ r s₃ e₃.
          let same₁ = Quiet-same s s₁ _ _ (fail_if-Quiet _ too_many_lines s (λ x. cc x)) e₁ in
          let same₃ = Quiet-same s₂ s₃ _ r (reply_line-Quiet line s₂) e₃ in
          let shorter = read_crlf_line-shorter s₁ s₂ line e₂ in
          either-fueled r.1 (response_loop fuel (push_message messages r.2))
            (return (r.0, join (codes "\n") (push_message messages r.2))) s₃
            (response_loop-fueled fuel (push_message messages r.2) s₃ (
              omega (
                arith,
                h,
                shorter.0,
                ap (λ (t : Stream). length t.input) same₁,
                ap (λ (t : Stream). length t.input) same₃,
              )))
            (λ x. cc x)

-- Reading a response ends for any input: the rounds that the input bounds are enough.
pub smtp_read_response-fueled : (s : Stream) → smtp_read_response s ≢ err out_of_fuel
unfolding smtp_read_response
smtp_read_response-fueled s = response_loop-fueled (suc (length s.input)) [] s (omega arith)

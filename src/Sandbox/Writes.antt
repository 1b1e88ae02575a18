-- ===== src/Sandbox/Writes.antt =====
-- A sequence of writes to the bounded buffer (app/internal/sandbox/limitedbuffer.go).
use mathlib.Core.Path.{subst}
use shell_agent_v.Base.{
  ℕ, zero, suc, ◌-◌, ◌≤◌, ◌<◌, ◌≡◌, refl, sym, ap, ◌∙◌, ◌&&◌, true, false, not, List, [], ◌∷◌, ◌++◌,
  length, take, ltb, leb, arith, inl, inr, Bool-cases, append_assoc, append-nil, length-append,
  length-take, min,
}
use shell_agent_v.Text.{Text, concat}
use shell_agent_v.Sandbox.{LimitedBuffer, new_limited_buffer, write}

pub write_all : List Text → LimitedBuffer → LimitedBuffer
write_all [] l = l
write_all (p ∷ ps) l = write_all ps (write p l).1

take_full : (n : ℕ) (s t : Text) → n ≤ length s → take n (s ++ t) ≡ take n s
take_full zero s t h = refl
take_full (suc n) [] t h = ground (arith, h)
take_full (suc n) (c ∷ s) t h = ap (λ r. c ∷ r) (take_full n s t (omega (arith, h)))

take_past : (n : ℕ) (s t : Text) → length s ≤ n → take n (s ++ t) ≡ s ++ take (n - length s) t
take_past n [] t h = let e : n - 0 ≡ n = omega arith in rw e refl
take_past zero (c ∷ s) t h = ground (arith, h)
take_past (suc n) (c ∷ s) t h =
    let e : suc n - length (c ∷ s) ≡ n - length s = omega arith in
    rw e (ap (λ r. c ∷ r) (take_past n s t (omega (arith, h))))

take_all : (n : ℕ) (s : Text) → length s ≤ n → take n s ≡ s
take_all zero [] h = refl
take_all zero (c ∷ s) h = ground (arith, h)
take_all (suc n) [] h = refl
take_all (suc n) (c ∷ s) h = ap (λ r. c ∷ r) (take_all n s (omega (arith, h)))

-- The buffer holds the first bytes of an output, and the mark is set only where something may be
-- missing; where it is not set nothing is.
record Holds (out : Text) (l : LimitedBuffer) : Type 0 where
  first_bytes : l.buf ≡ take l.cap out
  complete : l.truncated ≡ false → length out ≤ l.cap
  marked : l.truncated ≡ true → l.cap ≤ length out

module _ (out p : Text) (l : LimitedBuffer) (h : Holds out l) where
  length-held : length l.buf ≡ min l.cap (length out)
  length-held = rw h.first_bytes (length-take l.cap out)

  when_full : l.cap ≤ length l.buf → Holds (out ++ p) (record l { truncated = true })
  when_full f =
      let full : l.cap ≤ length out = omega (arith, f, length-held) in
      record {
        first_bytes = h.first_bytes ∙ sym (take_full l.cap out p full);
        complete = λ q. ground arith;
        marked = λ q. omega (arith, full, length-append out p);
      }

  module _ (room : length l.buf < l.cap) where
    held_all : l.buf ≡ out
    held_all = h.first_bytes ∙ take_all l.cap out (omega (arith, room, length-held))

    now_held : take l.cap (out ++ p) ≡ l.buf ++ take (l.cap - length l.buf) p
    now_held = rw held_all (take_past l.cap out p (omega (arith, room, length-held)))

    when_cut :
        l.cap - length l.buf < length p
        → Holds
            (out ++ p)
            (record l { buf = l.buf ++ take (l.cap - length l.buf) p; truncated = true })
    when_cut q = record {
      first_bytes = sym now_held;
      complete = λ r. ground arith;
      marked = λ r. omega (arith, q, room, length-held, length-append out p);
    }

    when_fits : length p ≤ l.cap - length l.buf → Holds (out ++ p) (record l { buf = l.buf ++ p })
    when_fits q = record {
      first_bytes = sym (now_held ∙ ap (λ t. l.buf ++ t) (take_all (l.cap - length l.buf) p q));
      complete = λ r. omega (arith, q, room, length-held, length-append out p);
      marked = λ r. omega (arith, h.marked r, length-append out p);
    }

  write-Holds : Holds (out ++ p) (write p l).1
  unfolding write
  write-Holds = elim (Bool-cases (leb l.cap (length l.buf))) [
    | inl f ↦ rw f (when_full (ground (arith, f)))
    | inr f ↦ elim (Bool-cases (ltb (l.cap - length l.buf) (length p))) [
      | inl q ↦ rw (f, q) (when_cut (ground (arith, f)) (ground (arith, q)))
      | inr q ↦ rw (f, q) (when_fits (ground (arith, f)) (ground (arith, q)))
    ]
  ]

write_all-Holds :
    (ps : List Text) (out : Text) (l : LimitedBuffer)
    → Holds out l
    → Holds (out ++ concat ps) (write_all ps l)
unfolding write_all concat
write_all-Holds [] out l h = rw (append-nil out) h
write_all-Holds (p ∷ ps) out l h =
    subst (λ t. Holds t (write_all ps (write p l).1)) (append_assoc out p (concat ps))
      (write_all-Holds ps (out ++ p) (write p l).1 (write-Holds out p l h))

keeps_cap : (ps : List Text) (l : LimitedBuffer) → (write_all ps l).cap ≡ l.cap
unfolding write_all write
keeps_cap [] l = refl
keeps_cap (p ∷ ps) l = ground (arith, keeps_cap ps (write p l).1)

start-Holds : (default_max cap : ℕ) → Holds [] (new_limited_buffer default_max cap)
unfolding new_limited_buffer
start-Holds d cap = record {
  first_bytes = sym (take_all _ [] (omega arith));
  complete = λ q. omega arith;
  marked = λ q. ground arith;
}

-- After any writes to a new buffer it holds the first bytes of all that was written, up to its
-- capacity, and where the mark is not set nothing is missing.
pub write_all_lem :
    (default_max cap : ℕ) (ps : List Text)
    → let l = new_limited_buffer default_max cap in
      ((write_all ps l).buf ≡ take l.cap (concat ps))
      × ((not (write_all ps l).truncated && ltb l.cap (length (concat ps))) ≡ false)
write_all_lem d cap ps =
    let l = new_limited_buffer d cap in
    let h = write_all-Holds ps [] l (start-Holds d cap) in
    let k = keeps_cap ps l in
    (
      ground (arith, h.first_bytes, k),
      elim (Bool-cases (write_all ps l).truncated) [
        | inl t ↦ ground (arith, t)
        | inr t ↦ ground (arith, t, h.complete t, k)
      ],
    )

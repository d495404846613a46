-- ===== src/Resolver/Mdns/RoundTrip.antt =====
-- The names that MDNSResolver.kt writes are those that it reads again.
use lan_scan.Base.{
  ℕ, zero, suc, ◌+◌, ◌-◌, ◌%◌, ◌^◌, ◌<◌, ◌≤◌, ◌≡◌, refl, ap, sym, ◌∙◌, arith, ◌==◌, ==-ne, false,
  lt→ltb, List, [], ◌∷◌, ◌++◌, append_assoc, append-nil, subst, length, length-append, take-append,
  drop-append, All, pos, le→leb,
}
use lan_scan.Resolver.Attempt.{Attempt, value, ◌>>=◌, at, part}
use lan_scan.Resolver.Mdns.{write_from, write_name, decode_from, without_last, decode_name}
use lan_scan.Text.Codes.{codes}

-- A label: 1 to 127 characters of ASCII other than a dot.
pub record IsLabel (l : List ℕ) : Type 0 where
  pub some_character : 0 < length l
  pub short : length l < 128
  pub ascii : All (λ (c : ℕ). c < 128) l
  pub no_dots : All (λ (c : ℕ). (c == b'.') ≡ false) l

-- Labels with dots between them, and with a dot behind each.
abbrev pub dotted : List ℕ → List (List ℕ) → List ℕ
dotted l [] = l
dotted l (next ∷ rest) = l ++ (codes "." ++ dotted next rest)

abbrev dots_behind : List (List ℕ) → List ℕ
dots_behind [] = []
dots_behind (l ∷ ls) = (l ++ codes ".") ++ dots_behind ls

-- Each label behind its length, and a zero.
abbrev encoded : List (List ℕ) → List ℕ
encoded [] = 0 ∷ []
encoded (l ∷ ls) = length l ∷ (l ++ encoded ls)

dotted-dot : (l : List ℕ) (ls : List (List ℕ)) → dots_behind (l ∷ ls) ≡ dotted l ls ++ codes "."
dotted-dot l [] = append-nil (l ++ codes ".")
dotted-dot l (next ∷ rest) =
    append_assoc l (codes ".") (dots_behind (next ∷ rest))
    ∙ ap (λ (t : List ℕ). l ++ (codes "." ++ t)) (dotted-dot next rest)
    ∙ sym (append_assoc l (codes "." ++ dotted next rest) (codes "."))

write_from-label :
    (label l rest : List ℕ)
    → All (λ (c : ℕ). (c == b'.') ≡ false) l
    → write_from label (l ++ rest) ≡ write_from (label ++ l) rest
unfolding write_from
write_from-label label [] rest h = ap (λ (t : List ℕ). write_from t rest) (sym (append-nil label))
write_from-label label (c ∷ l) rest h = rw (h.0) (
    write_from-label (label ++ (c ∷ [])) l rest h.1
    ∙ ap (λ (t : List ℕ). write_from t rest) (append_assoc label (c ∷ []) l))

small_length : (n : ℕ) → n < 128 → n % 2 ^ 8 ≡ n
small_length n h = omega arith

write_name-encoded :
    (l : List ℕ) (ls : List (List ℕ))
    → All IsLabel (l ∷ ls)
    → write_name (dotted l ls) ≡ encoded (l ∷ ls)
unfolding write_name write_from
write_name-encoded l [] h =
    ap (write_from []) (sym (append-nil l))
    ∙ write_from-label [] l [] h.0.no_dots
    ∙ ap (λ (n : ℕ). n ∷ (l ++ (0 ∷ []))) (small_length (length l) h.0.short)
write_name-encoded l (next ∷ rest) h =
    write_from-label [] l (codes "." ++ dotted next rest) h.0.no_dots
    ∙ rw (small_length (length l) h.0.short)
        (ap (λ (t : List ℕ). length l ∷ (l ++ t)) (write_name-encoded next rest h.1))

at-front : (before after : List ℕ) (b : ℕ) → at (before ++ (b ∷ after)) (length before) ≡ value b
unfolding at
at-front [] after b = refl
at-front (x ∷ before) after b = at-front before after b

part-middle :
    (before l after : List ℕ) → part (before ++ (l ++ after)) (length before) (length l) ≡ value l
unfolding part
part-middle before l after =
    rw
      (
        le→leb (length before + length l) (length (before ++ (l ++ after)))
            (omega (arith, length-append before (l ++ after), length-append l after)),
        drop-append before (l ++ after),
        take-append l after,
      )
      refl

-- What is relied on of `String`: ASCII bytes are their own characters.
pub record DecodesAscii (decode : List ℕ → List ℕ) : Type 0 where
  pub decode_ascii : (t : List ℕ) → All (λ (c : ℕ). c < 128) t → decode t ≡ t

module _ (decode : List ℕ → List ℕ) (laws : DecodesAscii decode) where
  -- One round reads one label.
  decode_from-label :
      (fuel : ℕ) (before l after : List ℕ) (end : ℕ) (s : List ℕ)
      → IsLabel l
      → length before < end
      → decode_from decode (suc fuel) (before ++ (length l ∷ (l ++ after))) (length before) end s
        ≡ decode_from decode fuel
            (before ++ (length l ∷ (l ++ after)))
            (length before + length l + 1)
            end
            (s ++ (l ++ codes "."))
  unfolding decode_from
  decode_from-label fuel before l after end s h inside =
      let place : part (before ++ (length l ∷ (l ++ after))) (length before + 1) (length l)
          ≡ value l =
        (ap (λ (i : ℕ). part (before ++ (length l ∷ (l ++ after))) i (length l))
            (sym (length-append before (length l ∷ [])))
          ∙ ap (λ (t : List ℕ). part t (length (before ++ (length l ∷ []))) (length l))
              (sym (append_assoc before (length l ∷ []) (l ++ after)))
          ∙ part-middle (before ++ (length l ∷ [])) l after) in
      rw
        (
          lt→ltb (length before) end inside,
          at-front before (l ++ after) (length l),
          ==-ne (length l) 0 (omega (arith, h.some_character)),
          lt→ltb (length l) 128 h.short,
          place,
          laws.decode_ascii l h.ascii,
        )
        refl

  pub decode_from-end :
      (fuel : ℕ) (before after : List ℕ) (end : ℕ) (s : List ℕ)
      → length before < end
      → decode_from decode (suc fuel) (before ++ (0 ∷ after)) (length before) end s ≡ value s
  unfolding decode_from
  decode_from-end fuel before after end s inside =
      rw (lt→ltb (length before) end inside, at-front before after 0) refl

  decode_from-dots :
      (ls : List (List ℕ)) (fuel : ℕ) (before after : List ℕ) (end : ℕ) (s : List ℕ)
      → All IsLabel ls
      → length (encoded ls) ≤ fuel
      → length before + length (encoded ls) ≤ end
      → decode_from decode fuel (before ++ (encoded ls ++ after)) (length before) end s
        ≡ value (s ++ dots_behind ls)
  decode_from-dots [] zero before after end s h enough inside = absurd (omega arith)
  decode_from-dots [] (suc fuel) before after end s h enough inside =
      decode_from-end fuel before after end s (omega arith)
      ∙ ap (λ (t : List ℕ). value t) (sym (append-nil s))
  decode_from-dots (l ∷ ls) zero before after end s h enough inside = absurd (omega arith)
  decode_from-dots (l ∷ ls) (suc fuel) before after end s h enough inside =
      let more : length (l ++ encoded ls) ≡ length l + length (encoded ls) =
        length-append l (encoded ls) in
      let before' = before ++ (length l ∷ l) in
      let size : length before' ≡ length before + length l + 1 =
        length-append before (length l ∷ l) ∙ (omega arith) in
      let same : before ++ (length l ∷ (l ++ (encoded ls ++ after)))
          ≡ before' ++ (encoded ls ++ after) =
        sym (append_assoc before (length l ∷ l) (encoded ls ++ after)) in
      ap
        (λ (t : List ℕ).
          decode_from decode (suc fuel) (before ++ (length l ∷ t)) (length before) end s)
        (append_assoc l (encoded ls) after)
      ∙ decode_from-label fuel before l (encoded ls ++ after) end s h.0 (omega arith)
      ∙ ap
          (λ (t : List ℕ).
            decode_from decode fuel t (length before + length l + 1) end (s ++ (l ++ codes ".")))
          same
      ∙ ap
          (λ (i : ℕ).
            decode_from decode fuel (before' ++ (encoded ls ++ after)) i end
              (s ++ (l ++ codes ".")))
          (sym size)
      ∙ decode_from-dots ls fuel before' after end (s ++ (l ++ codes ".")) h.1 (omega (arith, more))
          (omega (arith, more, size))
      ∙ ap (λ (t : List ℕ). value t) (append_assoc s (l ++ codes ".") (dots_behind ls))

  without_last-dot : (t : List ℕ) → without_last decode (t ++ codes ".") ≡ value t
  unfolding without_last
  without_last-dot t =
      let back : length t + 1 - 1 ≡ length t = omega arith in
      rw
        (
          length-append t (codes "."),
          ==-ne (length t + 1) 0 (omega arith),
          back,
          take-append t (codes "."),
        )
        refl

  -- What `writeName` writes of labels of 1 to 127 characters of ASCII with dots between them,
  -- `decodeName` reads back, wherever it stands in the array and whatever follows it, where the
  -- count takes it in.
  pub decode_name-write_name :
      (before after l : List ℕ) (ls : List (List ℕ)) (n : ℕ)
      → All IsLabel (l ∷ ls)
      → length (write_name (dotted l ls)) ≤ n
      → decode_name decode (before ++ (write_name (dotted l ls) ++ after)) (length before) (pos n)
        ≡ value (dotted l ls)
  unfolding decode_name
  decode_name-write_name before after l ls n h inside =
      let written = write_name-encoded l ls h in
      let bytes = before ++ (encoded (l ∷ ls) ++ after) in
      let fits : length (encoded (l ∷ ls)) ≤ n =
        subst (λ (t : List ℕ). length t ≤ n) written inside in
      ap (λ (t : List ℕ). decode_name decode (before ++ (t ++ after)) (length before) (pos n))
        written
      ∙ ap (λ (r : Attempt (List ℕ)). r >>= without_last decode)
          (decode_from-dots (l ∷ ls) (suc (length bytes)) before after (length before + n) [] h
            (omega (
              arith,
              length-append before (encoded (l ∷ ls) ++ after),
              length-append (encoded (l ∷ ls)) after,
            ))
            (omega (arith, fits)))
      ∙ ap (without_last decode) (dotted-dot l ls)
      ∙ without_last-dot (dotted l ls)

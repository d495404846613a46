-- ===== src/Mpls/Laws.antt =====
-- What android/src/main/c/mpls_ntop.c prints, against the labels of the stack joined by slashes.
use lan_scan.Base.{
  ℕ, ◌+◌, ◌-◌, ◌<◌, ◌≤◌, ◌≡◌, ltb, if◌then◌else◌, true, false, List, [], ◌∷◌, ◌++◌, length, arith,
  ◌∙◌, ap, Bool-cases, inl, inr, refl, sym, ntohl, pos, neg, Option, none, some, le→leb, lt→leb,
  ==-ne, length-append, append_assoc, le-or-lt,
}
use lan_scan.Sys.{Sys}
use mathlib.Core.Path.{ap₂}
use lan_scan.Text.Buffer.{overlay, store, store-overlay_last, null, text}
use lan_scan.Text.Decimal.{decimal}
use lan_scan.Text.Snprintf.{snprintf-cut, cut, cut-all}
use lan_scan.Mpls.{Answer, label, is_bottom, mpls_loop, after_print, slash, stored, mpls_ntop1}

-- The text of a stack down to its bottom entry; `none` where no entry is marked as the bottom.
join : List ℕ → Option (List ℕ) → Option (List ℕ)
join cs none = none
join cs (some t) = some (cs ++ (b'/' ∷ t))

unfoldable pub stack_text : Sys → List ℕ → Option (List ℕ)
unfolding join
stack_text s [] = none
stack_text s (word ∷ addr) =
    let cs = decimal (label s (ntohl word)) in
    if is_bottom s (ntohl word) then some cs else join cs (stack_text s addr)

-- What is returned for the text `t`.
abbrev pub answer : Sys → List ℕ → List ℕ → ℕ → Answer
answer s t buf buflen =
    if ltb (length t) buflen
    then (pos 0, text (overlay (t ++ (0 ∷ [])) buf))
    else (neg (pos s.e2big), null)

module _ (s : Sys) (word : ℕ) (addr : List ℕ) where
  abbrev cs : List ℕ
  cs = decimal (label s (ntohl word))

  -- What the text of a stack says of its first entry.
  data Top (t : List ℕ) : Type 0 where
    bottom : is_bottom s (ntohl word) ≡ true → t ≡ cs → Top t
    above :
        (t' : List ℕ)
        → is_bottom s (ntohl word) ≡ false
        → stack_text s addr ≡ some t'
        → t ≡ cs ++ (b'/' ∷ t')
        → Top t

  top : (t : List ℕ) → stack_text s (word ∷ addr) ≡ some t → Top t
  unfolding stack_text
  top t e = elim (Bool-cases (is_bottom s (ntohl word))) [
    | inl b ↦ bottom b (ground arith)
    | inr b ↦ rest (stack_text s addr) refl b
  ]
    where
      rest :
          (o : Option (List ℕ)) → stack_text s addr ≡ o → is_bottom s (ntohl word) ≡ false → Top t
      rest none eq b = absurd (ground arith)
      rest (some t') eq b = above t' b eq (ground arith)

module _ (s : Sys) (buf : List ℕ) where
  answer-over :
      (t : List ℕ) (room : ℕ) → room ≤ length t → answer s t buf room ≡ (neg (pos s.e2big), null)
  answer-over t room h = ground arith

  answer-fits :
      (t : List ℕ) (room : ℕ)
      → length t < room
      → answer s t buf room ≡ (pos 0, text (overlay (t ++ (0 ∷ [])) buf))
  answer-fits t room h = ground arith

  -- One round, by what the printed label leaves of the room.
  module _ (entry : ℕ) (again : ℕ → ℕ → List ℕ → Answer) (xs cs : List ℕ) (room : ℕ)
      (fits : length xs + room ≤ length buf) where
    abbrev round : Answer
    round = after_print s entry cs again (length xs) room (some (overlay (xs ++ cut room cs) buf))

    whole : length cs < room → xs ++ cut room cs ≡ (xs ++ cs) ++ (0 ∷ [])
    whole h = rw (cut-all room cs h) (sym (append_assoc xs cs (0 ∷ [])))

    round_over : room ≤ length cs → round ≡ (neg (pos s.e2big), null)
    unfolding after_print
    round_over h = rw (le→leb room (length cs) h)

    round_bottom :
        length cs < room
        → is_bottom s entry ≡ true
        → round ≡ (pos 0, text (overlay ((xs ++ cs) ++ (0 ∷ [])) buf))
    unfolding after_print
    round_bottom h b =
        rw (lt→leb room (length cs) h, b) (ap (λ w. (pos 0, text (overlay w buf))) (whole h))

    round_slash :
        length cs < room
        → is_bottom s entry ≡ false
        → round
          ≡ again
              (length ((xs ++ cs) ++ (b'/' ∷ [])))
              (room - length cs - 1)
              (overlay ((xs ++ cs) ++ (b'/' ∷ [])) buf)
    unfolding after_print slash
    round_slash h b =
        rw (lt→leb room (length cs) h, b, ==-ne (room - length cs) 0 (omega arith))
          (ap₂ (λ p w. stored (again (p + 1) (room - length cs - 1)) (store (overlay w buf) p b'/'))
              (sym (length-append xs cs)) (whole h)
            ∙ ap (stored (again (length (xs ++ cs) + 1) (room - length cs - 1)))
                (store-overlay_last (xs ++ cs) buf 0 b'/' (omega (arith, length-append xs cs)))
            ∙ ap (λ p. again p (room - length cs - 1) (overlay ((xs ++ cs) ++ (b'/' ∷ [])) buf))
                (omega (arith, length-append (xs ++ cs) (b'/' ∷ []))))

module _ (s : Sys) (word : ℕ) (addr xs t buf : List ℕ) (room : ℕ)
    (fits : length xs + room ≤ length buf) where
  abbrev c : List ℕ
  c = cs s word addr

  abbrev first_round : Answer
  first_round = round s buf (ntohl word) (mpls_loop s addr) xs c room fits

  round-bottom_answer :
      is_bottom s (ntohl word) ≡ true
      → t ≡ c
      → first_round ≡ answer s (xs ++ t) buf (length xs + room)
  round-bottom_answer b e = elim (le-or-lt room (length c)) [
    | inl over ↦
        round_over s buf (ntohl word) (mpls_loop s addr) xs c room fits over
        ∙ sym (answer-over s buf (xs ++ t) _ (rw e (omega (arith, length-append xs c))))
    | inr less ↦
        round_bottom s buf (ntohl word) (mpls_loop s addr) xs c room fits less b
        ∙ sym (rw e (answer-fits s buf (xs ++ c) _ (omega (arith, length-append xs c))))
  ]

  round-slash_answer :
      (t' : List ℕ)
      → is_bottom s (ntohl word) ≡ false
      → t ≡ c ++ (b'/' ∷ t')
      → (let ys = (xs ++ c) ++ (b'/' ∷ []) in
          let left = room - length c - 1 in
          length c < room
          → mpls_loop s addr (length ys) left (overlay ys buf)
            ≡ answer s (ys ++ t') buf (length ys + left))
      → first_round ≡ answer s (xs ++ t) buf (length xs + room)
  round-slash_answer t' b e ih = elim (le-or-lt room (length c)) [
    | inl over ↦
        round_over s buf (ntohl word) (mpls_loop s addr) xs c room fits over
        ∙ sym (
            answer-over s buf (xs ++ t) _ (
              rw e
                (omega (arith, length-append xs (c ++ (b'/' ∷ t')), length-append c (b'/' ∷ t')))))
    | inr less ↦
        round_slash s buf (ntohl word) (mpls_loop s addr) xs c room fits less b
        ∙ ih less
        ∙ ap₂ (λ w n. answer s w buf n) (same less)
            (omega (arith, length-append (xs ++ c) (b'/' ∷ []), length-append xs c))
  ]
    where
      same : length c < room → ((xs ++ c) ++ (b'/' ∷ [])) ++ t' ≡ xs ++ t
      same less = rw (e, append_assoc, append_assoc)

module _ (s : Sys) where
  mpls_loop-answer :
      (addr xs t buf : List ℕ) (room : ℕ)
      → stack_text s addr ≡ some t
      → length xs + room ≤ length buf
      → mpls_loop s addr (length xs) room (overlay xs buf)
        ≡ answer s (xs ++ t) buf (length xs + room)
  unfolding mpls_loop
  mpls_loop-answer [] xs t buf room e fits = unfold stack_text in cc
  mpls_loop-answer (word ∷ addr) xs t buf room e fits =
      ap (after_print s (ntohl word) (cs s word addr) (mpls_loop s addr) (length xs) room)
        (snprintf-cut xs (cs s word addr) buf room fits)
      ∙ elim (top s word addr t e) [
        | bottom b et ↦ round-bottom_answer s word addr xs t buf room fits b et
        | above t' b e' et ↦ round-slash_answer s word addr xs t buf room fits t' b et (λ less.
            mpls_loop-answer addr ((xs ++ cs s word addr) ++ (b'/' ∷ [])) t' buf _ e' (
              omega (
                arith,
                length-append (xs ++ cs s word addr) (b'/' ∷ []),
                length-append xs (cs s word addr),
              )))
      ]

-- On a stack with a bottom entry and an array of `buflen` characters or more `mpls_ntop1` ends and
-- stays inside the array. It writes the labels down to the bottom with slashes between them and a
-- NUL, where that fits `buflen`; otherwise it returns NULL with `errno` at -E2BIG.
pub mpls_ntop1-answer :
    (s : Sys) (addr t buf : List ℕ) (buflen : ℕ)
    → stack_text s addr ≡ some t
    → buflen ≤ length buf
    → mpls_ntop1 s addr buf buflen ≡ (
        if ltb (length t) buflen
        then (pos 0, text (overlay (t ++ (0 ∷ [])) buf))
        else (neg (pos s.e2big), null))
unfolding mpls_ntop1
mpls_ntop1-answer s addr t buf buflen e fits =
    mpls_loop-answer s addr [] t buf buflen e (omega arith) ∙ ap (answer s t buf) (omega arith)

-- ===== src/Console/HexDump.antt =====
-- A hex dump that the hypervisor writes into.
use drtm_tests.Prelude.Hex.{hex_bytes, from_hex, AreBytes, from_hex-hex_bytes}
use drtm_tests.Prelude.{
  ◌/◌, ◌%◌, ◌≡◌, refl, ◌∙◌, sym, ap, Bool, true, false, not, ◌&&◌, [], ◌∷◌, ◌++◌, Text, Bytes, txt,
  ◌==◌, arith, every, starts_with, is_space, digit, ok, or_raise, value_error, append-nil,
}
use drtm_tests.Console.{without_xen, without_spaces, hex_dump}

-- A text with no white space and no bracket in it, as hex digits are.
abbrev pub is_plain : Text → Bool
is_plain s = every (λ c. not (is_space c) && not (c == b'(')) s

digit_plain : (d : _) → is_plain (digit d ∷ []) ≡ true
digit_plain d = ground arith

hex_bytes_plain : (bs : Bytes) → AreBytes bs → is_plain (hex_bytes bs) ≡ true
unfolding hex_bytes
hex_bytes_plain [] h = refl
hex_bytes_plain (b ∷ bs) (lt, h) =
    ground (arith, hex_bytes_plain bs h, digit_plain (b / 16), digit_plain (b % 16))

no_mark : (c : _) (s : Text) → (c == b'(') ≡ false → starts_with (c ∷ s) (txt "(XEN)") ≡ false
unfolding starts_with txt
no_mark c s h = ground (arith, h)

without_xen_plain :
    (a s : Text) → is_plain a ≡ true → without_xen false (a ++ s) ≡ a ++ without_xen false s
unfolding without_xen
without_xen_plain [] s h = refl
without_xen_plain (c ∷ a) s h = ground (arith, without_xen_plain a s, no_mark c (a ++ s))

-- A hypervisor's line, up to its newline
without_xen_line :
    (noise s : Text)
    → every (λ c. not (c == 10)) noise ≡ true
    → without_xen true (noise ++ (10 ∷ s)) ≡ 10 ∷ without_xen false s
unfolding without_xen
without_xen_line [] s h = refl
without_xen_line (c ∷ noise) s h = ground (arith, without_xen_line noise s)

without_xen_mark : (s : Text) → without_xen false (txt "(XEN)" ++ s) ≡ without_xen true s
unfolding without_xen txt starts_with
without_xen_mark s = refl

without_spaces_plain :
    (a s : Text) → is_plain a ≡ true → without_spaces (a ++ s) ≡ a ++ without_spaces s
unfolding without_spaces
without_spaces_plain [] s h = refl
without_spaces_plain (c ∷ a) s h = ground (arith, without_spaces_plain a s)

plain-append : (a b : Text) → is_plain (a ++ b) ≡ (is_plain a && is_plain b)
plain-append [] b = refl
plain-append (c ∷ a) b = ground (arith, plain-append a b)

newline : (b : Text) → without_spaces (10 ∷ b) ≡ without_spaces b
unfolding without_spaces
newline b = refl

nothing_in : without_xen false [] ≡ []
unfolding without_xen
nothing_in = refl

nothing_left : without_spaces [] ≡ []
unfolding without_spaces
nothing_left = refl

cleaned :
    (a b noise : Text)
    → is_plain a ≡ true
    → is_plain b ≡ true
    → every (λ c. not (c == 10)) noise ≡ true
    → without_spaces (without_xen false (a ++ (txt "(XEN)" ++ (noise ++ (10 ∷ b))))) ≡ a ++ b
cleaned a b noise pa pb h =
    ap without_spaces (
      without_xen_plain a _ pa
      ∙ ap (λ s. a ++ s)
          (without_xen_mark (noise ++ (10 ∷ b))
            ∙ without_xen_line noise b h
            ∙ ap (◌∷◌ 10) (
                ap (without_xen false) (sym (append-nil b))
                ∙ without_xen_plain b [] pb
                ∙ ap (λ s. b ++ s) nothing_in
                ∙ append-nil b)))
    ∙ without_spaces_plain a (10 ∷ b) pa
    ∙ ap (λ s. a ++ s)
        (newline b
          ∙ ap without_spaces (sym (append-nil b))
          ∙ without_spaces_plain b [] pb
          ∙ ap (λ s. b ++ s) nothing_left
          ∙ append-nil b)

-- Whatever line the hypervisor writes into a hex dump, and at any place, between two bytes or inside
-- one, the dump still decodes to the bytes that were dumped.
pub hex_dump-hex_bytes :
    (bs : Bytes) (a b noise : Text)
    → AreBytes bs
    → a ++ b ≡ hex_bytes bs
    → every (λ c. not (c == 10)) noise ≡ true
    → hex_dump (a ++ (txt "(XEN)" ++ (noise ++ (10 ∷ b)))) ≡ ok bs
unfolding hex_dump
hex_dump-hex_bytes bs a b noise fits e h =
    let both : is_plain a && is_plain b ≡ true =
      sym (plain-append a b) ∙ ap is_plain e ∙ hex_bytes_plain bs fits in
    ap (λ t. or_raise value_error (from_hex t))
      (cleaned a b noise (ground arith) (ground arith) h ∙ e)
    ∙ ap (or_raise value_error) (from_hex-hex_bytes bs fits)

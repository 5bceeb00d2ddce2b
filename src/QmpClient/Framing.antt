-- ===== src/QmpClient/Framing.antt =====
-- How a reply is put together from the socket's reads.
use drtm_tests.Prelude.{
  ℕ, ◌≡◌, refl, ◌∙◌, sym, ap, Bool, true, false, not, List, [], ◌∷◌, ◌++◌, Bytes, ◌==◌, arith,
  every, append_assoc, append-nil, ok,
}
use drtm_tests.QmpClient.{ends_line, is_complete, receive}

abbrev pub concat : List Bytes → Bytes
concat [] = []
concat (chunk ∷ chunks) = chunk ++ concat chunks

-- No read is empty, which an open stream's never is.
abbrev pub ArePieces : List Bytes → Type 0
ArePieces [] = Unit {0}
ArePieces ([] ∷ chunks) = ⊥
ArePieces ((c ∷ chunk) ∷ chunks) = ArePieces chunks

abbrev pub is_line : Bytes → Bool
is_line line = every (λ c. not (c == 10)) line

-- A proper beginning of a line does not end in a newline.
ends_line-begin :
    (received : Bytes) (c : ℕ) (more line : Bytes)
    → received ++ (c ∷ more) ≡ line ++ (10 ∷ [])
    → is_line line ≡ true
    → ends_line received ≡ false
unfolding ends_line
ends_line-begin [] c more line e h = refl
ends_line-begin (d ∷ []) c more [] e h = ground arith
ends_line-begin (d ∷ []) c more (x ∷ line) e h = ground arith
ends_line-begin (d ∷ f ∷ s) c more [] e h = ground arith
ends_line-begin (d ∷ f ∷ s) c more (x ∷ line) e h =
    ends_line-begin (f ∷ s) c more line (ground arith) (ground arith)

receive_piece :
    (received chunk : Bytes) (c : ℕ) (chunks : List Bytes)
    → ends_line received ≡ false
    → receive received ((c ∷ chunk) ∷ chunks) ≡ receive (received ++ (c ∷ chunk)) chunks
unfolding receive is_complete
receive_piece received chunk c chunks h = ground arith

receive_from :
    (received : Bytes) (chunks : List Bytes) (line : Bytes)
    → ArePieces chunks
    → received ++ concat chunks ≡ line ++ (10 ∷ [])
    → is_line line ≡ true
    → is_complete (line ++ (10 ∷ [])) ≡ true
    → receive received chunks ≡ ok (line ++ (10 ∷ []))
receive_from received [] line p e h k =
    let whole : received ≡ line ++ (10 ∷ []) = sym (append-nil received) ∙ e in
    ap (λ r. receive r []) whole ∙ unfold receive in ground (arith, k)
receive_from received ([] ∷ chunks) line p e h k = elim p [ ]
receive_from received ((c ∷ chunk) ∷ chunks) line p e h k =
    receive_piece received chunk c chunks
      (ends_line-begin received c (chunk ++ concat chunks) line e h)
    ∙ receive_from (received ++ (c ∷ chunk)) chunks line p
        (append_assoc received (c ∷ chunk) (concat chunks) ∙ e) h k

-- However the socket cuts a reply of one line into reads, the loop reads exactly the reply: it goes on
-- to its end, and does not wait for another read behind it.
pub receive-concat :
    (chunks : List Bytes) (line : Bytes)
    → ArePieces chunks
    → concat chunks ≡ line ++ (10 ∷ [])
    → is_line line ≡ true
    → is_complete (line ++ (10 ∷ [])) ≡ true
    → receive [] chunks ≡ ok (line ++ (10 ∷ []))
receive-concat chunks line p e h k = receive_from [] chunks line p e h k

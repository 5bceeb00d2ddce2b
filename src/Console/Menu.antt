-- ===== src/Console/Menu.antt =====
-- Which entry `select_entry` boots.
use drtm_tests.Prelude.{
  ℕ, zero, suc, ◌+◌, ◌<◌, ◌≡◌, refl, ◌∙◌, sym, ap, Bool, true, false, not, some, List, [], ◌∷◌,
  Text, text_eq, arith, if◌then◌else◌, contains, take, drop, length, get_elem?, Result, ok, err,
  lookup_error, timeout_error,
}
use drtm_tests.Console.{
  Terminal, key_down, enter, key_timeout, then_do, retry, press, move_down, walk, index_of, pick,
}

-- GRUB's menu behind a terminal: the place of its highlight, by the machine's state. A Down that is
-- answered by the next title's highlight has moved it by one, and one that nothing answers in time
-- was lost.
pub record IsMenu {σ : Type 0} (vm : Terminal σ) (place : σ → ℕ) : Type 0 where
  pub moved :
      (title : Text) (s s' : σ) (text : Text)
      → vm.expect (b'*' ∷ title) key_timeout [] [] (vm.send key_down s) ≡ (s', ok text)
      → place s' ≡ place s + 1
  pub lost :
      (title : Text) (s s' : σ)
      → vm.expect (b'*' ∷ title) key_timeout [] [] (vm.send key_down s) ≡ (s', err timeout_error)
      → place s' ≡ place s

module _ {σ : Type 0} (vm : Terminal σ) (place : σ → ℕ) (menu : IsMenu vm place)
    (boot_timeout command_timeout : ℕ) where
  press_moves :
      (n : ℕ) (title : Text) (s : σ) {s' : σ}
      → press vm boot_timeout command_timeout n title s ≡ (s', ok tt)
      → place s' ≡ place s + 1
  unfolding press
  press_moves zero title s e = ground arith
  press_moves (suc n) title s {s'} e =
      answered (vm.expect (b'*' ∷ title) key_timeout [] [] (vm.send key_down s)) refl e
        (λ t f. press_moves n title t {s' = s'} f)
    where
      answered :
          (r : σ × Result Text)
          → vm.expect (b'*' ∷ title) key_timeout [] [] (vm.send key_down s) ≡ r
          → retry vm boot_timeout command_timeout r (press vm boot_timeout command_timeout n title)
            ≡ (s', ok tt)
          → ((t : σ)
              → press vm boot_timeout command_timeout n title t ≡ (s', ok tt)
              → place s' ≡ place t + 1)
          → place s' ≡ place s + 1
      answered (t, ok text) was h later =
          ap place (sym (ap (λ p. p.0) h)) ∙ menu.moved title s t text was
      answered (t, err timeout_error) was h later =
          later t h ∙ ap (λ n. n + 1) (menu.lost title s t was)
      answered (t, err _) was h later = ground arith

  walk_moves :
      (titles : List Text) (s : σ) {s' : σ}
      → walk vm boot_timeout command_timeout titles s ≡ (s', ok tt)
      → place s' ≡ place s + length titles
  unfolding walk
  walk_moves [] s e = omega (arith, ap place (ap (λ p. p.0) e))
  walk_moves (title ∷ titles) s {s'} e =
      stepped (move_down vm boot_timeout command_timeout title s) refl e
        (λ t f. walk_moves titles t {s' = s'} f)
    where
      stepped :
          (r : σ × Result (Unit {0}))
          → move_down vm boot_timeout command_timeout title s ≡ r
          → then_do r (λ _. walk vm boot_timeout command_timeout titles) ≡ (s', ok tt)
          → ((t : σ)
              → walk vm boot_timeout command_timeout titles t ≡ (s', ok tt)
              → place s' ≡ place t + length titles)
          → place s' ≡ place s + suc (length titles)
      stepped (t, ok _) was h later = omega (arith, later t h, press_moves 2 title s {s' = t} was)
      stepped (t, err x) was h later = ground arith

index_of-lt :
    (title : Text) (titles : List Text)
    → contains titles title ≡ true
    → index_of title titles < length titles
unfolding index_of
index_of-lt title [] h = ground arith
index_of-lt title (t ∷ ts) h = ground (arith, index_of-lt title ts)

get_elem?-index_of :
    (title : Text) (titles : List Text)
    → contains titles title ≡ true
    → get_elem? titles (index_of title titles) ≡ some title
unfolding index_of
get_elem?-index_of title [] h = ground arith
get_elem?-index_of title (t ∷ ts) h = ground (arith, get_elem?-index_of title ts)

length-take : (n : ℕ) (xs : List Text) → n < suc (length xs) → length (take n xs) ≡ n
length-take zero xs h = refl
length-take (suc n) [] h = let no : ⊥ = omega arith in elim no [ ]
length-take (suc n) (x ∷ xs) h = ap suc (length-take n xs (omega arith))

length-walked :
    (title : Text) (titles : List Text)
    → contains titles title ≡ true
    → length (take (index_of title titles) (drop 1 titles)) ≡ index_of title titles
length-walked title [] h = ground arith
length-walked title (t ∷ ts) h =
    length-take (index_of title (t ∷ ts)) ts (index_of-lt title (t ∷ ts) h)

-- A choice that returned: the highlight stood on the title when Enter was sent, and nothing followed.
abbrev pub IsChosen :
    {σ : Type 0} → Terminal σ → (σ → ℕ) → Text → List Text → σ × Result (List Text) → Type 0
IsChosen vm place title titles (s', err e) = Unit {0}
IsChosen {σ} vm place title titles (s', ok shown) =
    (t : σ) × (s' ≡ vm.send enter t) × (get_elem? titles (place t) ≡ some title) × (shown ≡ titles)

-- `select_entry` behind a menu whose first entry is highlighted. If it returns, it sent Enter when the
-- highlight stood on the title that it was asked for, whichever presses GRUB lost on the way, and
-- it returns the menu's titles. A title that the menu does not list is a `LookupError`, and no key
-- is sent.
pub pick-IsChosen :
    {σ : Type 0} (vm : Terminal σ) (place : σ → ℕ)
    → IsMenu vm place
    → (boot_timeout command_timeout : ℕ) (title : Text) (titles : List Text) (s : σ) → place s ≡ 0
    → IsChosen vm place title titles (pick vm boot_timeout command_timeout title titles s)
      × (contains titles title ≡ false
          → pick vm boot_timeout command_timeout title titles s ≡ (s, err lookup_error))
unfolding pick
pick-IsChosen {σ} vm place menu boot_timeout command_timeout title titles s at_first =
    (chosen (contains titles title) refl, unknown)
  where
    walked : σ × Result (Unit {0})
    walked = walk vm boot_timeout command_timeout (take (index_of title titles) (drop 1 titles)) s

    entered : σ × Result (Unit {0}) → σ × Result (List Text)
    entered r = then_do r (λ _ t. (vm.send enter t, ok titles))

    after_walk :
        contains titles title ≡ true
        → (r : σ × Result (Unit {0})) → walked ≡ r
        → IsChosen vm place title titles (entered r)
    after_walk h (t, err e) was = tt
    after_walk h (t, ok _) was =
        let there : place t ≡ index_of title titles = omega (
          arith,
          walk_moves vm place menu boot_timeout command_timeout
              (take (index_of title titles) (drop 1 titles)) s {s' = t} was,
          length-walked title titles h,
          at_first,
        ) in
        (t, refl, ap (get_elem? titles) there ∙ get_elem?-index_of title titles h, refl)

    chosen :
        (b : Bool)
        → contains titles title ≡ b
        → IsChosen vm place title titles (if not b then (s, err lookup_error) else entered walked)
    chosen true h = after_walk h walked refl
    chosen false h = tt

    unknown :
        contains titles title ≡ false
        → pick vm boot_timeout command_timeout title titles s ≡ (s, err lookup_error)
    unknown h = rw (h) refl

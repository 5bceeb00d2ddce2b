-- ===== src/Dasharo/Threads.antt =====
-- `warmed_firmware` called by threads at the same time, under `_warm_lock`: a step relation on the cache,
-- the lock and where each thread is. A run may be killed at any moment and started anew.
use mathlib.Core.Path.{subst}
use drtm_tests.Prelude.Dict.{lookup, has, insert, erase, lookup-insert, has-insert, lookup-has}
use drtm_tests.Prelude.Steps.{Reach, here, next, Reach_keeps_all, moved}
use drtm_tests.Prelude.{
  ℕ, nat_eq, ◌≡◌, sym, ap, ◌∙◌, Bool, true, false, Option, none, some, List, [], ◌∷◌, Text, Bytes,
  text_eq, ◌is◌, contains, arith,
}
use drtm_tests.Assets.{Cache}
use drtm_tests.Dasharo.{replace}

-- Where a thread is: in front of the lock, at the test for the file, in the boot, behind a boot that
-- returned, or out of the function again.
pub data Place : Type 0 where
  waiting testing booting replacing returned raised : Place

abbrev pub is_inside : Place → Bool
is_inside waiting = false
is_inside testing = true
is_inside booting = true
is_inside replacing = true
is_inside returned = false
is_inside raised = false

-- `finished` is what the boots that came to their end had written, the last one in front.
pub record System : Type 0 where
  pub cache : Cache
  pub lock : Option ℕ
  pub place : ℕ → Place
  pub finished : List Bytes

abbrev pub new_system : Cache → System
new_system cache = record { cache = cache; lock = none; place = λ i. waiting; finished = [] }

module _ (path scratch : Text) where
  pub data Step (s t : System) : Type 0 where
    acquire :
        (i : ℕ)
        → s.place i ≡ waiting
        → s.lock ≡ none
        → t ≡ record s { lock = some i; place = moved i testing s.place }
        → Step s t
    hit :
        (i : ℕ)
        → s.place i ≡ testing
        → has path s.cache ≡ true
        → t ≡ record s { lock = none; place = moved i returned s.place }
        → Step s t
    miss :
        (i : ℕ)
        → s.place i ≡ testing
        → has path s.cache ≡ false
        → t ≡ record s { place = moved i booting s.place }
        → Step s t
    write :
        (i : ℕ) (content : Bytes)
        → s.place i ≡ booting
        → t ≡ record s { cache = insert scratch content s.cache }
        → Step s t
    interrupt :
        (i : ℕ)
        → s.place i ≡ booting
        → t ≡ record s { lock = none; place = moved i raised s.place }
        → Step s t
    finish :
        (i : ℕ) (content : Bytes)
        → s.place i ≡ booting
        → lookup scratch s.cache ≡ some content
        → t ≡ record s { finished = content ∷ s.finished; place = moved i replacing s.place }
        → Step s t
    keep :
        (i : ℕ)
        → s.place i ≡ replacing
        → t ≡ record s {
          cache = (replace scratch path s.cache).0;
          lock = none;
          place = moved i returned s.place;
        }
        → Step s t
    restart : t ≡ record s { lock = none; place = λ i. waiting } → Step s t

  pub record Inv (s : System) : Type 0 where
    pub holds : (i : ℕ) → is_inside (s.place i) ≡ true → s.lock ≡ some i
    pub cold : (i : ℕ) → s.place i ≡ booting → has path s.cache ≡ false
    pub ready :
        (i : ℕ)
        → s.place i ≡ replacing
        → (has path s.cache ≡ false)
          × ((content : Bytes) × (lookup scratch s.cache ≡ some content)
              × (contains s.finished content ≡ true))
    pub complete :
        (content : Bytes) → lookup path s.cache ≡ some content → contains s.finished content ≡ true
    pub warm : (i : ℕ) → s.place i ≡ returned → has path s.cache ≡ true

  pub replace_found :
      (cache : Cache) (content : Bytes)
      → lookup scratch cache ≡ some content
      → (replace scratch path cache).0 ≡ insert path content (erase scratch cache)
  unfolding replace
  replace_found cache content found = ground arith

  -- Two threads inside are one: both hold the lock.
  pub alone :
      {s : System} (inv : Inv s) (i j : ℕ)
      → is_inside (s.place i) ≡ true
      → is_inside (s.place j) ≡ true
      → i ≡ j
  alone {s} inv i j in_i in_j =
      let same : some i ≡ some j = sym (inv.holds i in_i) ∙ inv.holds j in_j in cc

  module _ (apart : (path is scratch) ≡ false) where
    Step-Inv : (s t : System) → Step s t → Inv s → Inv t
    Step-Inv s t (acquire i at free e) inv = subst Inv (sym e) (record {
      holds = λ j h. ground (arith, inv.holds j);
      cold = λ j h. ground (arith, inv.cold j);
      ready = λ j h. inv.ready j (ground arith);
      complete = inv.complete;
      warm = λ j h. ground (arith, inv.warm j);
    })
    Step-Inv s t (hit i at there e) inv = subst Inv (sym e) (record {
      holds = λ j h. ground (arith, inv.holds j, inv.holds i);
      cold = λ j h. ground (arith, inv.cold j);
      ready = λ j h. inv.ready j (ground arith);
      complete = inv.complete;
      warm = λ j h. ground (arith, inv.warm j);
    })
    Step-Inv s t (miss i at absent e) inv = subst Inv (sym e) (record {
      holds = λ j h. ground (arith, inv.holds j, inv.holds i);
      cold = λ j h. ground (arith, inv.cold j);
      ready = λ j h. inv.ready j (ground arith);
      complete = inv.complete;
      warm = λ j h. ground (arith, inv.warm j);
    })
    Step-Inv s t (interrupt i at e) inv = subst Inv (sym e) (record {
      holds = λ j h. ground (arith, inv.holds j, inv.holds i);
      cold = λ j h. ground (arith, inv.cold j);
      ready = λ j h. inv.ready j (ground arith);
      complete = inv.complete;
      warm = λ j h. ground (arith, inv.warm j);
    })
    Step-Inv s t (write i content at e) inv = subst Inv (sym e) (record {
      holds = inv.holds;
      cold = λ j h. has-insert path scratch content s.cache ∙ ground (arith, inv.cold j);
      ready = λ j h. ground (arith, inv.holds j, inv.holds i);
      complete = λ c h. ground (arith, lookup-insert path scratch content s.cache, inv.complete c);
      warm = λ j h. has-insert path scratch content s.cache ∙ ground (arith, inv.warm j);
    })
    Step-Inv s t (finish i content at found e) inv = subst Inv (sym e) (record {
      holds = λ j h. ground (arith, inv.holds j, inv.holds i);
      cold = λ j h. ground (arith, inv.cold j);
      ready = λ j h. (inv.cold i at, (content, found, ground arith));
      complete = λ c h. ground (arith, inv.complete c);
      warm = λ j h. ground (arith, inv.warm j);
    })
    Step-Inv s t (keep i at e) inv =
        let (absent, (content, found, done)) = inv.ready i at in
        let kept = replace_found s.cache content found in
        subst Inv (sym e) (record {
          holds = λ j h. ground (arith, inv.holds j, inv.holds i);
          cold = λ j h. ground (arith, inv.cold j, inv.holds j, inv.holds i);
          ready = λ j h. ground (arith, inv.holds j, inv.holds i);
          complete = λ c h. ground (
            arith,
            kept,
            lookup-insert path path content (erase scratch s.cache),
            inv.complete c,
          );
          warm = λ j h.
              ap (has path) kept
              ∙ ground (arith, has-insert path path content (erase scratch s.cache));
        })
    Step-Inv s t (restart e) inv = subst Inv (sym e) (record {
      holds = λ j h. ground arith;
      cold = λ j h. ground arith;
      ready = λ j h. absurd (ground arith);
      complete = inv.complete;
      warm = λ j h. ground arith;
    })

    pub Reach-Inv : {s t : System} → Reach Step s t → Inv s → Inv t
    Reach-Inv run inv = Reach_keeps_all Inv Step-Inv run inv

    Step_keeps :
        (s t : System) (content : Bytes)
        → Inv s
        → Step s t
        → lookup path s.cache ≡ some content
        → lookup path t.cache ≡ some content
    Step_keeps s t content inv (acquire i at free e) h = ap (λ u. lookup path u.cache) e ∙ h
    Step_keeps s t content inv (hit i at there e) h = ap (λ u. lookup path u.cache) e ∙ h
    Step_keeps s t content inv (miss i at absent e) h = ap (λ u. lookup path u.cache) e ∙ h
    Step_keeps s t content inv (write i new at e) h =
        ap (λ u. lookup path u.cache) e ∙ lookup-insert path scratch new s.cache ∙ ground arith
    Step_keeps s t content inv (interrupt i at e) h = ap (λ u. lookup path u.cache) e ∙ h
    Step_keeps s t content inv (finish i new at found e) h = ap (λ u. lookup path u.cache) e ∙ h
    Step_keeps s t content inv (keep i at e) h =
        absurd (ground (arith, lookup-has path {v = content} s.cache, inv.ready i))
    Step_keeps s t content inv (restart e) h = ap (λ u. lookup path u.cache) e ∙ h

    pub Reach_keeps :
        {s t : System} (content : Bytes)
        → Inv s
        → Reach Step s t
        → lookup path s.cache ≡ some content
        → lookup path t.cache ≡ some content
    Reach_keeps content inv here h = h
    Reach_keeps content inv (next {t} {u} r st) h =
        Step_keeps t u content (Reach-Inv r inv) st (Reach_keeps content inv r h)

    pub new-Inv : (cache : Cache) → has path cache ≡ false → Inv (new_system cache)
    new-Inv cache absent = record {
      holds = λ j h. ground arith;
      cold = λ j h. ground arith;
      ready = λ j h. absurd (ground arith);
      complete = λ c h. absurd (ground (arith, lookup-has path {v = c} cache));
      warm = λ j h. ground arith;
    }

-- ===== src/QemuVm/Expect/Answers.antt =====
-- `answers`: what is sent for a prompt, and when.
use drtm_tests.Prelude.Find.{find, find_from, OccursAt, find-IsFirst, find-none}
use drtm_tests.Prelude.{
  ℕ, ◌+◌, ◌-◌, ◌<◌, ◌≤◌, ◌≡◌, ap, ◌∙◌, false, List, [], ◌∷◌, ◌++◌, Bytes, arith, length, drop,
  drop-add, length-drop, starts_with, Option-cases, inl, inr, Bool-cases, ◌⊎◌, ltb,
}
use drtm_tests.QemuVm.Expect.{answer_prompt}

drop-sub : (d k : ℕ) (buf : Bytes) → d ≤ k → drop k buf ≡ drop (k - d) (drop d buf)
drop-sub d k buf h = ap (λ n. drop n buf) (omega arith) ∙ drop-add d (k - d) buf

module _ (buf : Bytes) (cursor : ℕ) (prompt answer : Bytes) (after : ℕ) (sent : List Bytes) where
  abbrev next : ℕ × List Bytes
  next = answer_prompt buf cursor prompt answer after sent

  -- Nothing is sent: the prompt does not stand anywhere behind its last answer.
  pub record IsAbsent : Type 0 where
    pub same_place : next.0 ≡ after
    pub nothing_sent : next.1 ≡ sent
    pub nowhere :
        (k : ℕ) → after ≤ cursor + k → k ≤ length buf → starts_with (drop k buf) prompt ≡ false

  -- One answer is sent, for the first place of the prompt behind its last answer, and the next one
  -- is looked for behind that place.
  pub record IsAnswered : Type 0 where
    pub at : ℕ
    pub behind : after ≤ cursor + at
    pub occurs : OccursAt prompt buf at
    pub earliest : (k : ℕ) → after ≤ cursor + k → k < at → starts_with (drop k buf) prompt ≡ false
    pub one_sent : next.1 ≡ sent ++ (answer ∷ [])
    pub place : next.0 ≡ cursor + at + length prompt

  -- A prompt is answered exactly when it stands in the buffer behind the end of its last answered
  -- appearance, so each appearance is answered once.
  pub answer_prompt_lem : cursor ≤ after → IsAbsent ⊎ IsAnswered
  unfolding answer_prompt find_from
  answer_prompt_lem h = elim (Bool-cases (ltb (length buf) (after - cursor))) [
    | inl out ↦ inl (record {
      same_place = ground arith;
      nothing_sent = ground arith;
      nowhere = λ k b l. absurd (ground arith);
    })
    | inr room ↦ elim (Option-cases (find prompt (drop (after - cursor) buf))) [
      | inl miss ↦ inl (record {
        same_place = ground (arith, miss);
        nothing_sent = ground (arith, miss);
        nowhere = λ k b l. rw (drop-sub (after - cursor) k buf (omega arith)) (
            find-none prompt (drop (after - cursor) buf) (k - (after - cursor))
              (omega (arith, length-drop (after - cursor) buf)) miss);
      })
      | inr (at, hit) ↦ inr (record {
        at = after - cursor + at;
        behind = omega arith;
        occurs = rw (drop-add (after - cursor) at buf) (find-IsFirst prompt _ at hit).occurs;
        earliest = λ k b l.
            rw (drop-sub (after - cursor) k buf (omega arith))
              ((find-IsFirst prompt _ at hit).first (k - (after - cursor)) (omega arith));
        one_sent = ground (arith, hit);
        place = ground (arith, hit);
      })
    ]
  ]

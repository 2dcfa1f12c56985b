-- ===== src/Client/Merging/UnderWay.antt =====
-- Which pieces are under way on the client after it has heard from the server.
use ctd_project.Base.{
  ◌≡◌, refl, sym, ap, ◌∙◌, Bool, true, false, not, ◌&&◌, ◌||◌, Option, none, some, List, [], ◌∷◌,
  ◌++◌, if_cases, Bool-cases, inl, inr, str_eq, str_eq_iff, ltb, arith,
}
use ctd_project.Piece.{Ref, Heap}
use ctd_project.Motion.{Motion}
use ctd_project.Arbiter.{same_id}
use ctd_project.Client.Merging.{
  both_same, any_motion, merge_motion, merged_motions, keep_motions, final_motions,
}

-- A motion of the piece has time left.
abbrev pub any_running : Heap → Option Ref → List Motion → Bool
any_running h p [] = false
any_running h p (m ∷ ms) = (both_same h p m.piece && ltb 0 m.remaining_ms) || any_running h p ms

or_left : {a : Bool} (b : Bool) → a ≡ true → (a || b) ≡ true
or_left b e = rw e refl

or_either : {a b : Bool} → (a || b) ≡ true → (a ≡ true → b ≡ true) → b ≡ true
or_either {a} {b} e f = elim (Bool-cases a) [ inl t ↦ f t | inr t ↦ ground (arith, e, t) ]

kept : (f s l r k : Bool) → (l && not k) ≡ true → ((f || s) || r) ≡ (f || ((s && l) || r))
kept f s l r k e = ground (arith, e)

passed_over :
    (f s l r k : Bool)
    → (l && not k) ≡ false
    → (s ≡ true → k ≡ true → f ≡ true)
    → (f || r) ≡ (f || ((s && l) || r))
passed_over f s true r false e g = absurd (cc e)
passed_over f s false r k e g = ground (arith)
passed_over f false true r true e g = refl
passed_over f true true r true e g = ground (arith, g refl refl)

module _ (h : Heap) where
  merge_motion_piece : (ams : List Motion) (pm : Motion) → (merge_motion h ams pm).piece ≡ pm.piece
  unfolding merge_motion
  merge_motion_piece [] pm = refl
  merge_motion_piece (am ∷ ams) pm =
      if_cases (λ (m : Motion). m.piece ≡ pm.piece) (both_same h am.piece pm.piece) (λ e. refl)
        (λ e. merge_motion_piece ams pm)

  any_motion-merged_motions :
      (p : Option Ref) (ams pms : List Motion)
      → any_motion h p (merged_motions h ams pms) ≡ any_motion h p pms
  unfolding any_motion merged_motions
  any_motion-merged_motions p ams [] = refl
  any_motion-merged_motions p ams (pm ∷ pms) =
      rw (merge_motion_piece ams pm)
        (ap (λ b. both_same h p pm.piece || b) (any_motion-merged_motions p ams pms))

  any_motion-append :
      (p : Option Ref) (ms : List Motion) (m : Motion)
      → any_motion h p (ms ++ m ∷ []) ≡ (any_motion h p ms || both_same h p m.piece)
  unfolding any_motion
  any_motion-append p [] m = ground arith
  any_motion-append p (n ∷ ms) m = ground (arith, any_motion-append p ms m)

  -- Pieces with the same id are the same for the search.
  same_for_all :
      (r q : Ref) (x : Option Ref) → (h.piece q).id ≡ (h.piece r).id → same_id h q x ≡ same_id h r x
  same_for_all r q none e = refl
  same_for_all r q (some x) e = ap (str_eq (h.piece x).id) e

  any_motion_same :
      (r q : Ref) (ms : List Motion)
      → (h.piece q).id ≡ (h.piece r).id
      → any_motion h (some q) ms ≡ any_motion h (some r) ms
  unfolding any_motion
  any_motion_same r q [] e = refl
  any_motion_same r q (m ∷ ms) e =
      rw (same_for_all r q m.piece e)
        (ap (λ b. same_id h r m.piece || b) (any_motion_same r q ms e))

  found_too :
      (p q : Option Ref) (ms : List Motion)
      → both_same h p q ≡ true
      → any_motion h q ms ≡ true
      → any_motion h p ms ≡ true
  found_too none q ms s a = absurd (cc s)
  found_too (some r) none ms s a = absurd (cc s)
  found_too (some r) (some q) ms s a =
      sym (any_motion_same r q ms ((str_eq_iff (h.piece q).id (h.piece r).id).0 s)) ∙ a

  -- What the server has sent is in the list so far.
  Covers : List Motion → List Motion → Type 0
  Covers parsed final =
      (p : Option Ref) → any_motion h p parsed ≡ true → any_motion h p final ≡ true

  any_motion-keep_motions :
      (p : Option Ref) (parsed final ams : List Motion)
      → Covers parsed final
      → any_motion h p (keep_motions h parsed final ams)
        ≡ (any_motion h p final || any_running h p ams)
  unfolding keep_motions Covers
  any_motion-keep_motions p parsed final [] c = ground arith
  any_motion-keep_motions p parsed final (am ∷ ams) c =
      let known = any_motion h am.piece parsed || any_motion h am.piece final in
      elim (Bool-cases (ltb 0 am.remaining_ms && not known)) [
        | inl e ↦ rw e (
            any_motion-keep_motions p parsed (final ++ am ∷ []) ams
              (λ q a. any_motion-append q final am ∙ or_left _ (c q a))
            ∙ ap (λ b. b || any_running h p ams) (any_motion-append p final am)
            ∙ kept (any_motion h p final) (both_same h p am.piece) (ltb 0 am.remaining_ms)
                (any_running h p ams) known e)
        | inr e ↦ rw e (
            any_motion-keep_motions p parsed final ams c
            ∙ passed_over (any_motion h p final) (both_same h p am.piece) (ltb 0 am.remaining_ms)
                (any_running h p ams) known e
                (λ same k. found_too p am.piece final same (or_either k (c am.piece))))
      ]

-- After an update exactly the pieces are under way that are under way on the server, and those that
-- are still under way on the client with time left.
pub any_motion-final_motions :
    (h : Heap) (p : Option Ref) (ams parsed : List Motion)
    → any_motion h p (final_motions h ams parsed) ≡ (any_motion h p parsed || any_running h p ams)
unfolding final_motions
any_motion-final_motions h p ams parsed =
    any_motion-keep_motions h p parsed (merged_motions h ams parsed) ams
      (unfold Covers in λ q a. any_motion-merged_motions h q ams parsed ∙ a)
    ∙ ap (λ b. b || any_running h p ams) (any_motion-merged_motions h p ams parsed)

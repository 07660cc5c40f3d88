-- ===== src/Extension/Client/Batches/Feeds.antt =====
-- What a feed of descriptors gives, one by one.
use vector_chord.Base.{
  ◌≡◌, Option-cases, inl, inr, Option, none, some, List, [], ◌∷◌, arith, refl, sym, ap, subst,
}
use vector_chord.Extension.Client.{Outcome, ok}
use vector_chord.Extension.Client.Frames.{ok-injective}
use vector_chord.Extension.Client.Written.{>>=-ok}
use vector_chord.Extension.Client.Request.{ExternalTensorDescriptor}
use vector_chord.Extension.Client.Batches.{Feed, fetch_next, take_next}

module _ {C S : Type 0} (fetch : C → S → Outcome (Option ExternalTensorDescriptor × S)) where
  -- All that a feed still gives, one descriptor after the other.
  pub data Gives : Feed fetch → List ExternalTensorDescriptor → Type 0 where
    ended : {feed end : Feed fetch} → take_next fetch feed ≡ ok (none, end) → Gives feed []
    further :
        {feed next : Feed fetch} {d : ExternalTensorDescriptor} {ds : List ExternalTensorDescriptor}
        → take_next fetch feed ≡ ok (some d, next)
        → Gives next ds
        → Gives feed (d ∷ ds)

  none-some :
      {d : ExternalTensorDescriptor} {f g : Feed fetch}
      → ◌≡◌ {A = Outcome (Option ExternalTensorDescriptor × Feed fetch)}
          (ok (some d, f))
          (ok (none, g))
      → ⊥
  none-some e = cc

  fetch_next-ended :
      (cs : List C) (s : S) (end : Feed fetch)
      → fetch_next fetch cs s ≡ ok (none, end)
      → take_next fetch end ≡ ok (none, end)
  unfolding fetch_next take_next
  fetch_next-ended [] s end e =
      subst (λ f. take_next fetch f ≡ ok (none, f))
        (ap (λ (r : Option ExternalTensorDescriptor × Feed fetch). r.1) (ok-injective e)) refl
  fetch_next-ended (c ∷ cs) s end e =
      let (r, _, e2) = >>=-ok (fetch c s) _ (none, end) e in
      elim (Option-cases r.0) [
        | inl q ↦ fetch_next-ended cs r.1 end (rw q at e2)
        | inr (d, q) ↦ absurd (none-some (rw q at e2))
      ]

  fetch_next-none_pending :
      (cs : List C) (s : S) (d : ExternalTensorDescriptor) (next : Feed fetch)
      → fetch_next fetch cs s ≡ ok (some d, next)
      → next.pending ≡ none
  unfolding fetch_next
  fetch_next-none_pending [] s d next e = absurd (ground arith)
  fetch_next-none_pending (c ∷ cs) s d next e =
      let (r, _, e2) = >>=-ok (fetch c s) _ (some d, next) e in
      elim (Option-cases r.0) [
        | inl q ↦ fetch_next-none_pending cs r.1 d next (rw q at e2)
        | inr (b, q) ↦
            ap (λ (x : Option ExternalTensorDescriptor × Feed fetch). x.1.pending)
              (sym (ok-injective (rw q at e2)))
      ]

  pub take_next-ended :
      (feed end : Feed fetch)
      → take_next fetch feed ≡ ok (none, end)
      → take_next fetch end ≡ ok (none, end)
  unfolding take_next
  take_next-ended feed end e = elim (Option-cases feed.pending) [
    | inl q ↦ fetch_next-ended feed.candidates feed.source end (rw q at e)
    | inr (d, q) ↦ absurd (none-some (rw q at e))
  ]

  pub take_next-none_pending :
      (feed next : Feed fetch) (d : ExternalTensorDescriptor)
      → take_next fetch feed ≡ ok (some d, next)
      → next.pending ≡ none
  unfolding take_next
  take_next-none_pending feed next d e = elim (Option-cases feed.pending) [
    | inl q ↦ fetch_next-none_pending feed.candidates feed.source d next (rw q at e)
    | inr (b, q) ↦
        ap (λ (x : Option ExternalTensorDescriptor × Feed fetch). x.1.pending)
          (sym (ok-injective (rw q at e)))
  ]

  -- A descriptor that is put back is the next one again.
  pub put_back :
      (next : Feed fetch) (d : ExternalTensorDescriptor)
      → next.pending ≡ none
      → take_next fetch (record next { pending = some d }) ≡ ok (some d, next)
  unfolding take_next
  put_back next d p = ap (λ o. ok (some d, record next { pending = o })) (sym p)

-- ===== src/Extension/Client/Batches/Whole.antt =====
-- A query ends, and each of its descriptors is in one request.
use vector_chord.Base.{
  ℕ, zero, suc, ◌<◌, ◌≡◌, ◌≢◌, ◌⊎◌, inl, inr, Option, none, some, List, [], ◌∷◌, ◌++◌, length,
  length-append, arith, refl, sym, ap, ◌∙◌, subst,
}
use vector_chord.Tilemaxsimd.Protocol.{Bytes}
use vector_chord.Extension.Client.{RerankError, Outcome, ok, err}
use vector_chord.Extension.Client.Frames.{ok-injective}
use vector_chord.Extension.Client.Request.{◌>>=◌, OwnedVector, Scheduling, ExternalTensorDescriptor}
use vector_chord.Extension.Client.Encoder.{Limits}
use vector_chord.Extension.Client.Batches.{
  World, Feed, exchange, collect_external_batch, rerank_loop, rerank_batches,
}
use vector_chord.Extension.Client.Batches.Feeds.{Gives}
use vector_chord.Extension.Client.Batches.Progress.{collect_external_batch-IsTaken}

abbrev pub flat : List (List ExternalTensorDescriptor) → List ExternalTensorDescriptor
flat [] = []
flat (b ∷ bs) = b ++ flat bs

err-ok : {A : Type 0} (x : RerankError) (a : A) → err x ≢ ok a
err-ok x a e = cc

Outcome-cases :
    {A : Type 0} (m : Outcome A) → ((a : A) × (m ≡ ok a)) ⊎ ((x : RerankError) × (m ≡ err x))
Outcome-cases (ok a) = inl (a, refl)
Outcome-cases (err x) = inr (x, refl)

module _ {W : Type 0} (world : World W) (contract : Bytes) (query : List OwnedVector)
    (limits : Limits) (scheduling : Option Scheduling) where
  -- The batches one after the other, none of them empty.
  pub data Exchanged : List (List ExternalTensorDescriptor) → W → W → Type 0 where
    nothing : {w : W} → Exchanged [] w w
    one_more :
        {d : ExternalTensorDescriptor} {b : List ExternalTensorDescriptor}
        {bs : List (List ExternalTensorDescriptor)} {w next end : W}
        → exchange world contract query limits scheduling (d ∷ b) w ≡ ok next
        → Exchanged bs next end
        → Exchanged ((d ∷ b) ∷ bs) w end

  module _ {C S : Type 0} (fetch : C → S → Outcome (Option ExternalTensorDescriptor × S)) where
    -- What a run of the loop comes to.
    pub record IsComplete (ds : List ExternalTensorDescriptor) (w : W) (r : Outcome (Option W))
        : Type 0 where
      pub ends : r ≢ ok none
      pub sent :
          (end : W)
          → r ≡ ok (some end)
          → (bs : List (List ExternalTensorDescriptor)) × (flat bs ≡ ds) × Exchanged bs w end

    err-IsComplete :
        (ds : List ExternalTensorDescriptor) (w : W) (x : RerankError) → IsComplete ds w (err x)
    err-IsComplete ds w x = record {
      ends = λ e. absurd (err-ok x none e);
      sent = λ end e. absurd (err-ok x (some end) e);
    }

    end-IsComplete : (w : W) → IsComplete [] w (ok (some w))
    end-IsComplete w = record {
      ends = λ e. absurd (some-none (ok-injective e));
      sent = λ end e. ([], refl, subst (Exchanged [] w) (same (ok-injective e)) nothing);
    }
      where
        some-none : Option.some w ≢ none
        some-none e = cc

        same : {end : W} → Option.some w ≡ some end → w ≡ end
        same e = cc

    -- One round, and what the rounds after it come to.
    round-IsComplete :
        (d : ExternalTensorDescriptor) (b left : List ExternalTensorDescriptor) (w next : W)
        (r : Outcome (Option W))
        → exchange world contract query limits scheduling (d ∷ b) w ≡ ok next
        → IsComplete left next r
        → IsComplete ((d ∷ b) ++ left) w r
    round-IsComplete d b left w next r x v = record {
      ends = v.ends;
      sent = λ end e.
          let (bs, q, s) = v.sent end e in ((d ∷ b) ∷ bs, ap (λ l. (d ∷ b) ++ l) q, one_more x s);
    }

    rerank_loop-IsComplete :
        (fuel : ℕ) (feed : Feed fetch) (ds : List ExternalTensorDescriptor) (w : W)
        → Gives fetch feed ds
        → length ds < fuel
        → IsComplete ds w (rerank_loop world contract query limits scheduling fetch fuel feed w)
    unfolding rerank_loop
    rerank_loop-IsComplete zero feed ds w g l = absurd (omega arith)
    rerank_loop-IsComplete (suc fuel) feed ds w g l =
        elim (Outcome-cases (collect_external_batch fetch contract query limits scheduling feed)) [
          | inr (x, e) ↦ rw e (err-IsComplete ds w x)
          | inl ((batch, next), e) ↦
              let (left, q, rest, all, _, _, _, _, _, _) =
                collect_external_batch-IsTaken fetch contract query limits scheduling feed ds batch
                  next g e in
              rw e (
                after batch next left q rest all
                  (λ ds' w' h k. rerank_loop-IsComplete fuel next ds' w' h k))
        ]
      where
        after :
            (batch : List ExternalTensorDescriptor) (next : Feed fetch)
            (left : List ExternalTensorDescriptor)
            → ds ≡ batch ++ left
            → Gives fetch next left
            → (length batch ≡ 0 → left ≡ [])
            → ((ds' : List ExternalTensorDescriptor) (w' : W)
                → Gives fetch next ds'
                → length ds' < fuel
                → IsComplete ds' w'
                    (rerank_loop world contract query limits scheduling fetch fuel next w'))
            → IsComplete ds w (elim batch [
              | [] ↦ ok (some w)
              | d ∷ b ↦ exchange world contract query limits scheduling (d ∷ b) w >>= λ w'.
                  rerank_loop world contract query limits scheduling fetch fuel next w'
            ])
        after [] next left q rest all rounds =
            subst (λ m. IsComplete m w (ok (some w))) (sym (q ∙ all refl)) (end-IsComplete w)
        after (d ∷ b) next left q rest all rounds =
            elim (Outcome-cases (exchange world contract query limits scheduling (d ∷ b) w)) [
              | inr (x, e) ↦ rw e (err-IsComplete ds w x)
              | inl (w', e) ↦ rw e (
                  subst
                    (λ m.
                      IsComplete m w
                        (rerank_loop world contract query limits scheduling fetch fuel next w'))
                    (sym q)
                    (round-IsComplete d b left w w' _ e (
                      rounds left w' rest
                        (omega (arith, l, ap length q, length-append (d ∷ b) left)))))
            ]

    -- Where the feed gives the descriptors `ds`, one round more than there are descriptors is enough: the
    -- query ends, by an error or with its results. If it ends with its results, then the exchanged
    -- batches together are just `ds` in order, and none of them is empty.
    pub rerank_batches-IsComplete :
        (fuel : ℕ) (feed : Feed fetch) (ds : List ExternalTensorDescriptor) (w : W)
        → Gives fetch feed ds
        → length ds < fuel
        → (rerank_batches world contract query limits scheduling fetch fuel feed w ≢ ok none)
          × ((end : W)
              → rerank_batches world contract query limits scheduling fetch fuel feed w
                ≡ ok (some end)
              → (begin : W) × (world.deadline w ≡ ok begin)
                × (bs : List (List ExternalTensorDescriptor)) × (flat bs ≡ ds)
                × Exchanged bs begin end)
    unfolding rerank_batches
    rerank_batches-IsComplete fuel feed ds w g l = elim (Outcome-cases (world.deadline w)) [
      | inr (x, e) ↦ rw e (λ q. absurd (err-ok x none q), λ end q. absurd (err-ok x (some end) q))
      | inl (begin, e) ↦
          let v = rerank_loop-IsComplete fuel feed ds begin g l in
          rw e (v.ends, λ end q. let (bs, f, s) = v.sent end q in (begin, refl, bs, f, s))
    ]

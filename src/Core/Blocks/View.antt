-- ===== src/Core/Blocks/View.antt =====
-- The chain that a consumer of the watcher's updates sees (crates/core/src/index/blocks.rs).
use safenet.Prelude.{
  ℕ, suc, ◌≤◌, ◌≡◌, refl, ap, ◌∙◌, ◌*◌, Option, none, some, List, [], ◌∷◌, ◌++◌, map, ltb, ◌==◌,
  if◌then◌else◌, Bool, true, false, ok, length, arith, Bool-cases, inl, inr, subst,
}
use safenet.Alloy.{B256}
use safenet.Core.Updates.{BlockUpdate, warp, uncle, new}
use safenet.Core.Blocks.{BlockHeader, BlockWatcher, evict, accept_block, next_header}

-- A block's number and hash; a view has the newest block in front.
abbrev pub View : Type 0
View = List (ℕ × B256)

abbrev pub link : BlockHeader → ℕ × B256
link b = (b.number, b.hash)

-- A consumer adds a new block and removes an uncled one, which has to be its newest.
unfoldable pub follow : View → BlockUpdate → Option View
follow view (new number hash t bloom) = some ((number, hash) ∷ view)
follow [] (uncle number) = none
follow ((n, h) ∷ view) (uncle number) = if n == number then some view else none
follow view (warp from to) = none

-- Each tracked block builds on the one before it, the oldest on the safe block.
abbrev pub Linked : ℕ × B256 → List BlockHeader → Type 0
Linked s [] = Unit
Linked s (b ∷ []) = (b.parent_hash ≡ s.1) × (b.number ≡ suc s.0)
Linked s (b ∷ c ∷ older) =
    (b.parent_hash ≡ c.hash) × (b.number ≡ suc c.number) × Linked s (c ∷ older)

abbrev pub tip : ℕ × B256 → List BlockHeader → ℕ × B256
tip s [] = s
tip s (b ∷ older) = link b

abbrev pub safe_of : BlockWatcher → ℕ × B256
safe_of w = (w.safe.number, w.safe.hash)

-- The view is the tracked blocks, the safe block and an older past; the pending block is the next.
pub record Watches (w : BlockWatcher) (view : View) : Type 0 where
  pub past : View
  pub seen : view ≡ map link w.recent ++ (safe_of w ∷ past)
  pub linked : Linked (safe_of w) w.recent
  pub bounded : length w.recent ≤ w.max_reorg_depth
  pub expects : w.pending.number ≡ suc (tip (safe_of w) w.recent).0

evict-length : (b : BlockHeader) (bs : List BlockHeader) → length (evict b bs).0 ≡ length bs
unfolding evict
evict-length b [] = refl
evict-length b (c ∷ bs) = ap suc (evict-length c bs)

evict-append :
    (b : BlockHeader) (bs : List BlockHeader) (rest : View)
    → map link (evict b bs).0 ++ (link (evict b bs).1 ∷ rest) ≡ link b ∷ (map link bs ++ rest)
unfolding evict
evict-append b [] rest = refl
evict-append b (c ∷ bs) rest = ap (λ v. link b ∷ v) (evict-append c bs rest)

evict-Linked :
    (s : ℕ × B256) (b : BlockHeader) (bs : List BlockHeader)
    → Linked s (b ∷ bs)
    → Linked (link (evict b bs).1) (evict b bs).0
unfolding evict
evict-Linked s b [] h = tt
evict-Linked s b (c ∷ []) h = (h.0, h.1)
evict-Linked s b (c ∷ d ∷ bs) h = (h.0, h.1, evict-Linked s c (d ∷ bs) h.2)

evict-tip :
    (s : ℕ × B256) (b : BlockHeader) (bs : List BlockHeader)
    → tip (link (evict b bs).1) (evict b bs).0 ≡ link b
unfolding evict
evict-tip s b [] = refl
evict-tip s b (c ∷ bs) = refl

Linked-cons :
    (s : ℕ × B256) (b : BlockHeader) (bs : List BlockHeader)
    → b.parent_hash ≡ (tip s bs).1
    → b.number ≡ suc (tip s bs).0
    → Linked s bs
    → Linked s (b ∷ bs)
Linked-cons s b [] p n h = (p, n)
Linked-cons s b (c ∷ bs) p n h = (p, n, h)

-- The parent's hash is the tip's.
accept_block-Watches :
    (w : BlockWatcher) (b : BlockHeader) (view : View)
    → Watches w view
    → b.number ≡ w.pending.number
    → b.parent_hash ≡ (tip (safe_of w) w.recent).1
    → Watches (accept_block w b).0 (link b ∷ view)
unfolding accept_block
accept_block-Watches w b view o n p = at (ltb w.max_reorg_depth (length (b ∷ w.recent))) refl
  where
    all : Linked (safe_of w) (b ∷ w.recent)
    all = Linked-cons (safe_of w) b w.recent p (n ∙ o.expects) o.linked

    at :
        (full : Bool)
        → ltb w.max_reorg_depth (length (b ∷ w.recent)) ≡ full
        → Watches (accept_block w b).0 (link b ∷ view)
    at true e = record {
      past = safe_of w ∷ o.past;
      seen = grind (arith, o.seen, evict-append b w.recent (safe_of w ∷ o.past));
      linked = grind (arith, evict-Linked (safe_of w) b w.recent all);
      bounded = grind (arith, o.bounded, evict-length b w.recent);
      expects = grind (arith, evict-tip (safe_of w) b w.recent);
    }
    at false e = record {
      past = o.past;
      seen = grind (arith, o.seen);
      linked = grind (arith, all);
      bounded = grind arith;
      expects = grind arith;
    }

Linked-uncons :
    (s : ℕ × B256) (b : BlockHeader) (bs : List BlockHeader)
    → Linked s (b ∷ bs)
    → Linked s bs × (b.number ≡ suc (tip s bs).0)
Linked-uncons s b [] h = (tt, h.1)
Linked-uncons s b (c ∷ bs) h = (h.2, h.1)

-- What a step leaves for the consumer.
abbrev pub FollowsOn : View → BlockWatcher × BlockUpdate → Type 0
FollowsOn view (w, u) =
    (next : View) × (follow view u ≡ some next) × Watches w next × (w.queue ≡ [])

uncle-FollowsOn :
    (w : BlockWatcher) (last : BlockHeader) (older : List BlockHeader) (view : View)
    → Watches w view
    → w.queue ≡ []
    → w.recent ≡ last ∷ older
    → FollowsOn view (
      record w {
        recent = older;
        pending = record { number = last.number; timestamp_ms = last.timestamp * 1000 };
      },
      uncle last.number,
    )
unfolding follow
uncle-FollowsOn w last older view o q e =
    let l = Linked-uncons (safe_of w) last older (subst (λ r. Linked (safe_of w) r) e o.linked) in
    (
      map link older ++ (safe_of w ∷ o.past),
      grind (arith, o.seen),
      record {
        past = o.past;
        seen = refl;
        linked = l.0;
        bounded = grind (arith, o.bounded);
        expects = l.1;
      },
      q,
    )

accept-FollowsOn :
    (w : BlockWatcher) (b : BlockHeader) (view : View)
    → Watches w view
    → w.queue ≡ []
    → b.number ≡ w.pending.number
    → b.parent_hash ≡ (tip (safe_of w) w.recent).1
    → FollowsOn view (accept_block w b)
unfolding accept_block follow
accept-FollowsOn w b view o q n p = at (ltb w.max_reorg_depth (length (b ∷ w.recent))) refl
  where
    kept : Watches (accept_block w b).0 (link b ∷ view)
    kept = accept_block-Watches w b view o n p

    at :
        (full : Bool)
        → ltb w.max_reorg_depth (length (b ∷ w.recent)) ≡ full
        → FollowsOn view (accept_block w b)
    at true e = (link b ∷ view, grind arith, kept, grind arith)
    at false e = (link b ∷ view, grind arith, kept, grind arith)

pub next_header-FollowsOn :
    (w : BlockWatcher) (b : BlockHeader) (view : View) (r : BlockWatcher × BlockUpdate)
    → Watches w view
    → w.queue ≡ []
    → b.number ≡ w.pending.number
    → next_header w b ≡ ok r
    → FollowsOn view r
unfolding next_header
next_header-FollowsOn w b view r o q n h = at w.recent refl
  where
    at : (bs : List BlockHeader) → w.recent ≡ bs → FollowsOn view r
    at [] e = elim (Bool-cases (w.safe.hash == b.parent_hash)) [
      | inl p ↦ grind (arith, accept-FollowsOn w b view o q n (grind arith))
      | inr p ↦ grind arith
    ]
    at (last ∷ older) e = elim (Bool-cases (last.hash == b.parent_hash)) [
      | inl p ↦ grind (arith, accept-FollowsOn w b view o q n (grind arith))
      | inr p ↦ grind (arith, uncle-FollowsOn w last older view o q e)
    ]

-- ===== src/Certs/Stream/Listing/Orders.antt =====
-- lib/certs.go: listings that hold the same blocks, up to their order.
use mathlib.Core.List.{Permᴰ}
use mathlib.Core.List.Permᴰ
use certigo.Base.{
  Bool, true, false, if◌then◌else◌, List, ◌∷◌, ◌++◌, ◌≡◌, refl, sym, subst, ap, ◌∙◌, append_assoc,
}
use certigo.Certs.{Block}
use certigo.Certs.Stream.Listing.{
  Ending, complete, failed, refused, crashed, Listing, holds, followed_by, gather,
}

-- Both parts are complete, and hold the blocks one after the other.
record Parts (first more : Listing) (blocks : List Block) : Type 0 where
  left : List Block
  right : List Block
  first_holds : first ≡ holds left
  more_holds : more ≡ holds right
  together : blocks ≡ left ++ right

followed_by-Parts :
    (given : List Block) (ending : Ending) (more : Listing) (blocks : List Block)
    → followed_by (record { blocks = given; ending = ending }) more ≡ holds blocks
    → Parts (record { blocks = given; ending = ending }) more blocks
followed_by-Parts given complete more blocks h = record {
  left = given;
  right = more.blocks;
  first_holds = refl;
  more_holds = ap (λ e. record { blocks = more.blocks; ending = e }) (ap (λ l. l.ending) h);
  together = sym (ap (λ l. l.blocks) h);
}
followed_by-Parts given (failed e) more blocks h = absurd (cc)
followed_by-Parts given (refused e) more blocks h = absurd (cc)
followed_by-Parts given crashed more blocks h = absurd (cc)

pub joined :
    (first more : Listing) {left right : List Block}
    → first ≡ holds left
    → more ≡ holds right
    → followed_by first more ≡ holds (left ++ right)
joined first more {left} {right} h g =
    ap (λ l. followed_by l more) h ∙ ap (λ l. followed_by (holds left) l) g

append-swap : {A : Type 0} (xs ys zs : List A) → Permᴰ (xs ++ (ys ++ zs)) (ys ++ (xs ++ zs))
append-swap xs ys zs =
    subst (λ l. Permᴰ l (ys ++ (xs ++ zs))) (append_assoc xs ys zs)
      (subst (λ l. Permᴰ (xs ++ ys ++ zs) l) (append_assoc ys xs zs)
        (Permᴰ.append_right zs (Permᴰ.append_comm xs ys)))

-- Complete, with the same blocks in some order.
pub record Rearranged (blocks : List Block) (listing : Listing) : Type 0 where
  pub others : List Block
  pub completes : listing ≡ holds others
  pub same : Permᴰ blocks others

module _ {A : Type 0} (f : A → Listing) where
  cons-Rearranged :
      (a : A) (xs ys : List A)
      → ((blocks : List Block) → gather f xs ≡ holds blocks → Rearranged blocks (gather f ys))
      → (blocks : List Block) → gather f (a ∷ xs) ≡ holds blocks
      → Rearranged blocks (gather f (a ∷ ys))
  unfolding gather
  cons-Rearranged a xs ys ih blocks h =
      let parts = followed_by-Parts (f a).blocks (f a).ending (gather f xs) blocks h in
      let rest = ih parts.right parts.more_holds in
      record {
        others = parts.left ++ rest.others;
        completes = joined (f a) (gather f ys) parts.first_holds rest.completes;
        same =
            subst (λ given. Permᴰ given (parts.left ++ rest.others)) (sym parts.together)
              (Permᴰ.append_left parts.left rest.same);
      }

  swap-Rearranged :
      (a b : A) (xs : List A) (blocks : List Block)
      → gather f (a ∷ b ∷ xs) ≡ holds blocks
      → Rearranged blocks (gather f (b ∷ a ∷ xs))
  unfolding gather
  swap-Rearranged a b xs blocks h =
      let outer = followed_by-Parts (f a).blocks (f a).ending (gather f (b ∷ xs)) blocks h in
      let inner =
        followed_by-Parts (f b).blocks (f b).ending (gather f xs) outer.right outer.more_holds in
      record {
        others = inner.left ++ (outer.left ++ inner.right);
        completes =
            joined (f b) (followed_by (f a) (gather f xs)) inner.first_holds
              (joined (f a) (gather f xs) outer.first_holds inner.more_holds);
        same =
            subst (λ given. Permᴰ given (inner.left ++ (outer.left ++ inner.right)))
              (sym (outer.together ∙ ap (λ given. outer.left ++ given) inner.together))
              (append-swap outer.left inner.left inner.right);
      }

  -- What is gathered from all items, where all are complete, is the same in every order.
  gather-Permᴰ :
      {xs ys : List A} (blocks : List Block)
      → Permᴰ xs ys
      → gather f xs ≡ holds blocks
      → Rearranged blocks (gather f ys)
  gather-Permᴰ blocks Permᴰ.nil h = record {
    others = blocks;
    completes = h;
    same = Permᴰ.refl blocks;
  }
  gather-Permᴰ blocks (Permᴰ.cons {a = a} {l₁ = xs} {l₂ = ys} e p) h =
      subst (λ c. Rearranged blocks (gather f (c ∷ ys))) e
        (cons-Rearranged a xs ys (λ given g. gather-Permᴰ given p g) blocks h)
  gather-Permᴰ blocks (Permᴰ.swap {a = a} {b = b} {a' = b'} {l = xs} e e') h =
      subst (λ c. Rearranged blocks (gather f (b' ∷ c ∷ xs))) e
        (subst (λ c. Rearranged blocks (gather f (c ∷ a ∷ xs))) e'
          (swap-Rearranged a b xs blocks h))
  gather-Permᴰ blocks (Permᴰ.trans p q) h =
      let first = gather-Permᴰ blocks p h in
      let second = gather-Permᴰ first.others q first.completes in
      record {
        others = second.others;
        completes = second.completes;
        same = Permᴰ.trans first.same second.same;
      }

-- Where the first one is complete, so is the second one, with the same blocks in some order.
pub record Agrees (x y : Listing) : Type 0 where
  pub agrees : (blocks : List Block) → x ≡ holds blocks → Rearranged blocks y

pub equal-Agrees : {x y : Listing} → x ≡ y → Agrees x y
equal-Agrees e = record {
  agrees = λ blocks h. record { others = blocks; completes = sym e ∙ h; same = Permᴰ.refl blocks };
}

pub followed_by-Agrees :
    {x x' y y' : Listing} → Agrees x x' → Agrees y y' → Agrees (followed_by x y) (followed_by x' y')
followed_by-Agrees {x} {x'} {y} {y'} hx hy = record {
  agrees = λ blocks h.
      let parts = followed_by-Parts x.blocks x.ending y blocks h in
      let first = hx.agrees parts.left parts.first_holds in
      let rest = hy.agrees parts.right parts.more_holds in
      record {
        others = first.others ++ rest.others;
        completes = joined x' y' first.completes rest.completes;
        same =
            subst (λ given. Permᴰ given (first.others ++ rest.others)) (sym parts.together)
              (Permᴰ.trans (Permᴰ.append_right parts.right first.same)
                (Permᴰ.append_left first.others rest.same));
      };
}

pub gather-Agrees :
    {A : Type 0} (f : A → Listing) {xs ys : List A}
    → Permᴰ xs ys
    → Agrees (gather f xs) (gather f ys)
gather-Agrees f p = record { agrees = λ blocks h. gather-Permᴰ f blocks p h }

pub if-Agrees :
    (b : Bool) (x x' y y' : Listing)
    → Agrees x x'
    → Agrees y y'
    → Agrees (if b then x else y) (if b then x' else y')
if-Agrees true x x' y y' hx hy = hx
if-Agrees false x x' y y' hx hy = hy

-- ===== src/Certs/Stream/Listing/Delivers.antt =====
-- lib/certs.go: what calls the callback on the blocks of a listing, and then ends as it does.
use certigo.Base.{
  List, [], ◌∷◌, ◌++◌, ◌≡◌, refl, ◌∙◌, ap, sym, map, Bytes, Outcome, ok, err, panic, M, pure,
  continue, ◌>>◌,
}
use certigo.Certs.{Block, for_each}
use certigo.Certs.Stream.{Passwords, OnBlock}
use certigo.Certs.Stream.Listing.{
  Ending, complete, failed, refused, crashed, Listing, holds, ends, extend, followed_by, gather,
  finish, deliver, perform,
}

module _ {S : Type 0} where
  continue_assoc :
      (k n : M S Bytes (Unit {0})) (r : Outcome Bytes (Unit {0}) × S)
      → continue (λ _. n) (continue (λ _. k) r) ≡ continue (λ _. k >> n) r
  continue_assoc k n (ok _, s) = refl
  continue_assoc k n (err e, s) = refl
  continue_assoc k n (panic, s) = refl

  then_assoc : (m k n : M S Bytes (Unit {0})) → m >> k >> n ≡ m >> (k >> n)
  then_assoc m k n = λ i s. continue_assoc k n (m s) i

  continue-pure : (r : Outcome Bytes (Unit {0}) × S) → continue {B = Unit {0}} (λ _. pure tt) r ≡ r
  continue-pure (ok tt, s) = refl
  continue-pure (err e, s) = refl
  continue-pure (panic, s) = refl

  then-pure : (m : M S Bytes (Unit {0})) → m >> pure tt ≡ m
  then-pure m = λ i s. continue-pure (m s) i

  for_each-append :
      {A : Type 0} (f : A → M S Bytes (Unit {0})) (xs ys : List A)
      → for_each f (xs ++ ys) ≡ for_each f xs >> for_each f ys
  unfolding for_each
  for_each-append f [] ys = refl
  for_each-append f (x ∷ xs) ys =
      ap (λ m. f x >> m) (for_each-append f xs ys)
      ∙ sym (then_assoc (f x) (for_each f xs) (for_each f ys))

  for_each-map :
      {A B : Type 0} (f : B → M S Bytes (Unit {0})) (g : A → B) (items : List A)
      → for_each f (map g items) ≡ for_each (λ a. f (g a)) items
  unfolding for_each
  for_each-map f g [] = refl
  for_each-map f g (a ∷ items) = ap (λ m. f (g a) >> m) (for_each-map f g items)

  module _ (password : Passwords S) (callback : OnBlock S) (format : Bytes) where
    -- After an ending that stops the run nothing else runs.
    stops-extend :
        (blocks : List Block) (ending : Ending) (more : Listing)
        → finish password callback format ending
          ≡ finish password callback format ending >> perform password callback format more
        → deliver password callback format blocks >> finish password callback format ending
          ≡ deliver password callback format blocks
            >> finish password callback format ending
            >> perform password callback format more
    stops-extend blocks ending more h =
        let given = deliver password callback format blocks in
        ap (λ m. given >> m) h
        ∙ sym (
            then_assoc given (finish password callback format ending)
              (perform password callback format more))

    perform-extend :
        (blocks : List Block) (ending : Ending) (more : Listing)
        → perform password callback format (extend blocks ending more)
          ≡ deliver password callback format blocks
            >> finish password callback format ending
            >> perform password callback format more
    perform-extend blocks complete more =
        let given = deliver password callback format blocks in
        let rest = perform password callback format more in
        ap (λ m. m >> finish password callback format more.ending)
          (for_each-append (λ block. callback block format) blocks more.blocks)
        ∙ then_assoc given (deliver password callback format more.blocks) _
        ∙ ap (λ m. m >> rest) (sym (then-pure given))
    perform-extend blocks (failed e) more = stops-extend blocks (failed e) more refl
    perform-extend blocks (refused e) more = stops-extend blocks (refused e) more refl
    perform-extend blocks crashed more = stops-extend blocks crashed more refl

    -- The action delivers the listing.
    pub record Delivers (m : M S Bytes (Unit {0})) (listing : Listing) : Type 0 where
      pub path : m ≡ perform password callback format listing

    pub ends-Delivers :
        (ending : Ending) → Delivers (finish password callback format ending) (ends ending)
    unfolding for_each
    ends-Delivers ending = record { path = refl }

    pub one-Delivers : (block : Block) → Delivers (callback block format) (holds (block ∷ []))
    unfolding for_each
    one-Delivers block = record {
      path =
          sym (then-pure (callback block format))
          ∙ sym (then-pure (callback block format >> pure tt));
    }

    pub holds-Delivers :
        (blocks : List Block) → Delivers (deliver password callback format blocks) (holds blocks)
    holds-Delivers blocks = record {
      path = sym (then-pure (deliver password callback format blocks));
    }

    pub map-Delivers :
        {A : Type 0} (f : A → Block) (items : List A)
        → Delivers (for_each (λ a. callback (f a) format) items) (holds (map f items))
    map-Delivers f items = record {
      path =
          sym (for_each-map (λ block. callback block format) f items)
          ∙ sym (then-pure (deliver password callback format (map f items)));
    }

    pub then-Delivers :
        {m k : M S Bytes (Unit {0})} {first more : Listing}
        → Delivers m first
        → Delivers k more
        → Delivers (m >> k) (followed_by first more)
    then-Delivers {m} {k} {first} {more} hm hk = record {
      path =
          ap (λ a. a >> k) hm.path
          ∙ ap (λ b. perform password callback format first >> b) hk.path
          ∙ sym (perform-extend first.blocks first.ending more);
    }

    pub for_each-Delivers :
        {A : Type 0} (f : A → M S Bytes (Unit {0})) (g : A → Listing) (items : List A)
        → ((a : A) → Delivers (f a) (g a))
        → Delivers (for_each f items) (gather g items)
    unfolding for_each gather
    for_each-Delivers f g [] h = ends-Delivers complete
    for_each-Delivers f g (a ∷ items) h = then-Delivers (h a) (for_each-Delivers f g items h)

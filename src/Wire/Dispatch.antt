-- ===== src/Wire/Dispatch.antt =====
-- `deserialize` on a datagram that has a header, followed by any memory.
use jammer_netz.Base.{
  ℕ, ◌+◌, ◌-◌, ◌≡◌, refl, ◌∙◌, true, List, ◌++◌, leb, arith, take, length, take-append,
}
use mathlib.Core.List.{append-nil}
use jammer_netz.Platform.{Platform}
use jammer_netz.Package.{Store}
use jammer_netz.Wire.{Formats, write_header, header_size}
use jammer_netz.Wire.Messages.{deserialize, read_message}

take-all : (xs more : List ℕ) (n : ℕ) → n ≡ length xs + 4 → take (n - 4) (xs ++ more) ≡ xs
take-all xs more n e =
    let m : n - 4 ≡ length xs + 0 = omega arith in rw m (take-append xs more 0 ∙ append-nil xs)

take-more : (xs more : List ℕ) (n : ℕ) → n ≡ length xs + 4 → take n (xs ++ more) ≡ xs ++ take 4 more
take-more xs more n e = rw e (take-append xs more 4)

module _ (P : Platform) (F : Formats P) where
  pub deserialize-headed :
      (message_type : ℕ) (body more : List ℕ) (st : Store P)
      → deserialize P F
          ((write_header message_type ++ body) ++ more)
          (length (write_header message_type ++ body))
          st
        ≡ read_message P F message_type body (body ++ take 4 more) (4 + length body) st
  unfolding deserialize
  deserialize-headed message_type body more st =
      let n : ℕ = length (write_header message_type ++ body) in
      let e : leb header_size n ≡ true = ground arith in
      let e' : n ≡ 4 + length body = omega arith in
      rw (e, take-all body more n (omega arith), take-more body more n (omega arith), e') refl

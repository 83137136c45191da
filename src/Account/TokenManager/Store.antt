-- ===== src/Account/TokenManager/Store.antt =====
-- TokenManager: what a read of the store finds after an atomic change.
use jitong_app.Base.{
  ◌≡◌, refl, ap, ◌∙◌, Bool, Option, none, some, List, [], ◌∷◌, ◌++◌, Bytes, bytes_eq, if◌then◌else◌,
  arith,
}
use jitong_app.Base.Dict.{find, put, erase, find-put, find-erase, bytes_Eq}
use jitong_app.Account.TokenManager.{Store, prefix, key_of, put_all, remove_all}

bytes_eq-append : (p a b : Bytes) → bytes_eq (p ++ a) (p ++ b) ≡ bytes_eq a b
unfolding bytes_eq
bytes_eq-append [] a b = refl
bytes_eq-append (x ∷ p) a b = ground (arith, bytes_eq-append p a b)

-- The last value that the puts give a suffix, or `old`.
unfoldable pub after_puts : Bytes → List (Bytes × Bytes) → Option Bytes → Option Bytes
after_puts suffix [] old = old
after_puts suffix ((s, v) ∷ puts) old =
    after_puts suffix puts (if bytes_eq suffix s then some v else old)

unfoldable pub after_removes : Bytes → List Bytes → Option Bytes → Option Bytes
after_removes suffix [] old = old
after_removes suffix (s ∷ removes) old =
    after_removes suffix removes (if bytes_eq suffix s then none else old)

find-put_key :
    (account s suffix v : Bytes) (m : Store)
    → find (key_of account suffix) (put (key_of account s) v m)
      ≡ (if bytes_eq suffix s then some v else find (key_of account suffix) m)
find-put_key account s suffix v m =
    find-put (key_of account s) (key_of account suffix) v m
    ∙ ap (λ (b : Bool). if b then some v else find (key_of account suffix) m)
        (bytes_eq-append (prefix account) suffix s)

find-erase_key :
    (account s suffix : Bytes) (m : Store)
    → find (key_of account suffix) (erase (key_of account s) m)
      ≡ (if bytes_eq suffix s then none else find (key_of account suffix) m)
find-erase_key account s suffix m =
    find-erase (key_of account s) (key_of account suffix) m
    ∙ ap (λ (b : Bool). if b then none else find (key_of account suffix) m)
        (bytes_eq-append (prefix account) suffix s)

pub find-put_all :
    (account suffix : Bytes) (puts : List (Bytes × Bytes)) (m : Store)
    → find (key_of account suffix) (put_all account puts m)
      ≡ after_puts suffix puts (find (key_of account suffix) m)
unfolding put_all after_puts
find-put_all account suffix [] m = refl
find-put_all account suffix ((s, v) ∷ puts) m =
    find-put_all account suffix puts (put (key_of account s) v m)
    ∙ ap (after_puts suffix puts) (find-put_key account s suffix v m)

pub find-remove_all :
    (account suffix : Bytes) (removes : List Bytes) (m : Store)
    → find (key_of account suffix) (remove_all account removes m)
      ≡ after_removes suffix removes (find (key_of account suffix) m)
unfolding remove_all after_removes
find-remove_all account suffix [] m = refl
find-remove_all account suffix (s ∷ removes) m =
    find-remove_all account suffix removes (erase (key_of account s) m)
    ∙ ap (after_removes suffix removes) (find-erase_key account s suffix m)

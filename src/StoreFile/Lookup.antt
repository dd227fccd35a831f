-- ===== src/StoreFile/Lookup.antt =====
-- Lookup after the changes of a directory.
use ceal_cli.Base.{[], ◌∷◌, none, some, true, ◌≡◌, ◌↔◌, refl, arith, if◌then◌else◌}
use ceal_cli.StoreFile.Calls.{Name, same_name, Node, Entries, find, without, put}

pub same_name_iff : (m n : Name) → (same_name m n ≡ true) ↔ (m ≡ n)
same_name_iff [] [] = (λ _. refl, λ _. refl)
same_name_iff [] (c ∷ cs) = (λ h. cc, λ h. cc)
same_name_iff (b ∷ bs) [] = (λ h. cc, λ h. cc)
same_name_iff (b ∷ bs) (c ∷ cs) =
    (λ h. ground (arith, same_name_iff bs cs), λ h. ground (arith, same_name_iff bs cs))

pub same_name_refl : (n : Name) → same_name n n ≡ true
same_name_refl n = (same_name_iff n n).1 refl

pub find-without :
    (n m : Name) (es : Entries)
    → find n (without m es) ≡ (if same_name m n then none else find n es)
unfolding find without
find-without n m [] = ground arith
find-without n m ((k, v) ∷ es) =
    ground (arith, find-without n m es, same_name_iff k m, same_name_iff k n, same_name_iff m n)

pub find-put :
    (n m : Name) (v : Node) (es : Entries)
    → find n (put m v es) ≡ (if same_name m n then some v else find n es)
unfolding find put
find-put n m v es = ground (arith, find-without n m es)

pub same_name_comm : (m n : Name) → same_name m n ≡ same_name n m
same_name_comm [] [] = refl
same_name_comm [] (c ∷ cs) = refl
same_name_comm (b ∷ bs) [] = refl
same_name_comm (b ∷ bs) (c ∷ cs) = ground (arith, same_name_comm bs cs)

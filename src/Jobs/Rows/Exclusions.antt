-- ===== src/Jobs/Rows/Exclusions.antt =====
-- The stored exclusions are read back whenever they meet their primary key.
use textify.Prelude.{true, ◌≡◌, refl, ◌∙◌, List, [], ◌∷◌, arith, ◌==◌}
use textify.Transcription.Fields.{ResponseFieldPath, path_rank, excludes}
use textify.Jobs.Types.{ok}
use textify.Jobs.Schema.{Job, distinct_paths}
use textify.Jobs.Rows.{insert_path, order_paths, exclusions_from_rows, load_exclusions, check}

insert-excludes :
    (p x : ResponseFieldPath) (qs : List ResponseFieldPath)
    → excludes (insert_path p qs) x ≡ excludes (p ∷ qs) x
unfolding excludes insert_path
insert-excludes p x [] = refl
insert-excludes p x (q ∷ qs) = ground (arith, insert-excludes p x qs)

order-excludes :
    (x : ResponseFieldPath) (ps : List ResponseFieldPath)
    → excludes (order_paths ps) x ≡ excludes ps x
unfolding excludes order_paths
order-excludes x [] = refl
order-excludes x (p ∷ ps) =
    insert-excludes p x (order_paths ps) ∙ ground (arith, order-excludes x ps)

excludes-sym :
    (p q : ResponseFieldPath) → (path_rank p == path_rank q) ≡ (path_rank q == path_rank p)
excludes-sym p q = ground arith

insert-distinct :
    (p : ResponseFieldPath) (qs : List ResponseFieldPath)
    → distinct_paths (p ∷ qs) ≡ true
    → distinct_paths (insert_path p qs) ≡ true
unfolding distinct_paths insert_path excludes
insert-distinct p [] h = h
insert-distinct p (q ∷ qs) h =
    ground (arith, h, insert-distinct p qs, insert-excludes p q qs, excludes-sym p q)

order-distinct :
    (ps : List ResponseFieldPath)
    → distinct_paths ps ≡ true
    → distinct_paths (order_paths ps) ≡ true
unfolding distinct_paths order_paths
order-distinct [] h = h
order-distinct (p ∷ ps) h =
    insert-distinct p (order_paths ps) (ground (arith, h, order-excludes p ps, order-distinct ps))

pub load_exclusions-ok :
    (j : Job)
    → distinct_paths j.exclusions ≡ true
    → load_exclusions j ≡ ok (order_paths j.exclusions)
unfolding load_exclusions exclusions_from_rows check
load_exclusions-ok j h = rw (order-distinct j.exclusions h) refl

-- ===== src/Bencode/Merge.antt =====
-- A dictionary built again by inserting its entries in their order (the loop of the `d` arm of
-- `decode_inner`, crates/core/src/bencode.rs).
use torrent_rust_cli.Common.{◌≡◌, refl, sym, ap, ◌∙◌, subst, Bytes}
use torrent_rust_cli.Bencode.Value.{Bencode, Dict, empty, entry, insert, Before, AllAfter, IsSorted}
use torrent_rust_cli.Bencode.Order.{insert_gt, gt_of_Before}

-- The map that the loop builds from the entries of another one, in their order.
unfoldable pub insert_all : Dict → Dict → Dict
insert_all acc empty = acc
insert_all acc (entry k v d) = insert_all (insert k v acc) d

append_dict : Dict → Dict → Dict
append_dict empty d = d
append_dict (entry k v c) d = entry k v (append_dict c d)

append_dict_empty : (d : Dict) → append_dict d empty ≡ d
unfolding append_dict
append_dict_empty empty = refl
append_dict_empty (entry k v d) = ap (λ t. entry k v t) (append_dict_empty d)

append_dict_assoc :
    (a b c : Dict) → append_dict (append_dict a b) c ≡ append_dict a (append_dict b c)
unfolding append_dict
append_dict_assoc empty b c = refl
append_dict_assoc (entry k v a) b c = ap (λ t. entry k v t) (append_dict_assoc a b c)

AllAfter-append :
    (j k : Bytes) (v : Bencode) (a d : Dict) → AllAfter j (append_dict a (entry k v d)) → Before j k
unfolding append_dict
AllAfter-append j k v empty d h = h.0
AllAfter-append j k v (entry i w a) d h = AllAfter-append j k v a d h.1

-- A key behind all others goes to the end.
insert_last :
    (k : Bytes) (v : Bencode) (a d : Dict)
    → IsSorted (append_dict a (entry k v d))
    → insert k v a ≡ append_dict a (entry k v empty)
unfolding append_dict
insert_last k v empty d s = unfold insert in refl
insert_last k v (entry j w a) d s =
    insert_gt k j v w a (gt_of_Before k j (AllAfter-append j k v a d s.0))
    ∙ ap (λ t. entry j w t) (insert_last k v a d s.1)

insert_all-append :
    (d acc : Dict) → IsSorted (append_dict acc d) → insert_all acc d ≡ append_dict acc d
unfolding insert_all
insert_all-append empty acc s = sym (append_dict_empty acc)
insert_all-append (entry k v d) acc s =
    let regroup : append_dict (append_dict acc (entry k v empty)) d
        ≡ append_dict acc (entry k v d) =
      append_dict_assoc acc (entry k v empty) d ∙ (unfold append_dict in refl) in
    rw (insert_last k v acc d s) (
      insert_all-append d (append_dict acc (entry k v empty)) (subst IsSorted (sym regroup) s)
      ∙ regroup)

pub insert_all_of_sorted : (d : Dict) → IsSorted d → insert_all empty d ≡ d
unfolding append_dict
insert_all_of_sorted d s = insert_all-append d empty s

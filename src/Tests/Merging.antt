-- ===== src/Tests/Merging.antt =====
-- Examples of the theorems on the three-way merge.
use vaultsyncforagents.Prelude.{◌≡◌, refl, false, none, some, Str, List, codes, ◌==◌}
use vaultsyncforagents.Prelude.Strings.{split_on, join_with}
use vaultsyncforagents.Merge.{
  newline, split_lines, regions_equal, lcs_table, lcs_pairs, walk, matched, anchors_from,
  resolve_gap, merge_from, is_too_large, merge_lines, merge_text3,
}
use vaultsyncforagents.Merge.Clean.{IsMerged, merge_text3-IsMerged}
use vaultsyncforagents.Merge.Symmetry.{merge_text3_comm}
use vaultsyncforagents.Merge.OneSide.{merge_text3_one_side}

abbrev list_note : Str
list_note = codes "a\nb\nc\nd"

abbrev second_changed : Str
second_changed = codes "a\nB\nc\nd"

abbrev fourth_changed : Str
fourth_changed = codes "a\nb\nc\nD\ne"

abbrev second_changed_too : Str
second_changed_too = codes "a\nX\nc\nd"

both_kept : merge_text3 list_note second_changed fourth_changed ≡ some (codes "a\nB\nc\nD\ne")
unfolding merge_text3 merge_lines is_too_large merge_from resolve_gap regions_equal anchors_from
    matched lcs_pairs walk lcs_table split_lines split_on join_with ◌==◌
both_kept = refl

clash_refused : merge_text3 list_note second_changed second_changed_too ≡ none
unfolding merge_text3 merge_lines is_too_large merge_from resolve_gap regions_equal anchors_from
    matched lcs_pairs walk lcs_table split_lines split_on join_with ◌==◌
clash_refused = refl

merge_text3-IsMerged_example :
    (lines : List Str) × (codes "a\nB\nc\nD\ne" ≡ join_with newline lines)
    × IsMerged
        (split_lines list_note)
        (split_lines second_changed)
        (split_lines fourth_changed)
        lines
merge_text3-IsMerged_example =
    merge_text3-IsMerged list_note second_changed fourth_changed (codes "a\nB\nc\nD\ne") both_kept

merge_text3_comm_example :
    merge_text3 list_note second_changed fourth_changed
    ≡ merge_text3 list_note fourth_changed second_changed
merge_text3_comm_example = merge_text3_comm list_note second_changed fourth_changed

small_note :
    is_too_large (split_lines list_note) (split_lines second_changed) (split_lines list_note)
    ≡ false
unfolding is_too_large split_lines split_on
small_note = refl

merge_text3_one_side_example : merge_text3 list_note second_changed list_note ≡ some second_changed
merge_text3_one_side_example = merge_text3_one_side list_note second_changed small_note

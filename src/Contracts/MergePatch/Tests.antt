-- ===== src/Contracts/MergePatch/Tests.antt =====
-- Small trees, and the theorems at them.
use robotics_runtime.Base.{ℕ, ◌≡◌, refl, true, none}
use robotics_runtime.Base.Float.{naturals}
use robotics_runtime.Base.Int.{pos}
use robotics_runtime.Contracts.MergePatch.{
  null, int, str, arr, obj, nil, cons, Members, end, member, get, merge_patch, merge_members,
  json_equal, create_value, create_patch, removals, unchanged, create_members, put, keys_in,
}
use robotics_runtime.Contracts.MergePatch.Apply.{get-merge_members}
use robotics_runtime.Contracts.MergePatch.Roundtrip.{
  IsDict, IsRepresentable, merge_patch-create_patch,
}

abbrev before : Members ℕ
before =
    member "name" (str "arm")
      (member "limits" (obj (member "speed" (int (pos 3)) (member "old" null end))) end)

abbrev after : Members ℕ
after =
    member "limits" (obj (member "speed" (int (pos 4)) end))
      (member "tags" (arr (cons null nil)) end)

patch_runs :
    create_patch before after
    ≡ member "name" null (
        member "limits"
          (obj (member "old" null (member "speed" (int (pos 4)) end)))
          (member "tags" (arr (cons null nil)) end))
unfolding create_patch create_members create_value removals unchanged json_equal put get keys_in
patch_runs = refl

merge_patch-create_patch_example :
    json_equal (merge_patch (obj before) (obj (create_patch before after))) (obj after) ≡ true
unfolding IsDict IsRepresentable get json_equal
merge_patch-create_patch_example =
    merge_patch-create_patch before after (tt, refl, ((tt, refl, (tt, refl, tt)), refl, tt))
      ((λ e. cc), ((λ e. cc), refl, refl, tt), refl, ((λ e. cc), refl, refl, tt))

get-merge_members_example : get (merge_members before (member "name" null end)) "name" ≡ none
unfolding get
get-merge_members_example = get-merge_members (member "name" null end) before "name" (refl, tt)

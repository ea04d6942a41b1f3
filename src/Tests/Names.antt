-- ===== src/Tests/Names.antt =====
-- Names (crates/nfctl-core/src/model/ids.rs).
use Prim.Native.String.{len}
use nfctl.Common.{ℕ, String, ◌≡◌, ◌≢◌, ◌≤◌, refl, ok, err, [], all, ◌<◌}
use nfctl.Model.Ids.{too_long, bad_chars, chars, check_chars, check_dns_label, new_name, max_label}
use nfctl.Model.Ids.Grammar.{IsLabel, new_name_iff, new_name-Explains}

accepts_label : new_name max_label "p1-2-3" ≡ ok "p1-2-3"
unfolding new_name check_dns_label check_chars all
accepts_label = refl

rejects_lead : new_name max_label "-lead" ≡ err bad_chars
unfolding new_name check_dns_label check_chars all
rejects_lead = refl

rejects_long : new_name 3 "abcd" ≡ err (too_long 3)
unfolding new_name check_dns_label check_chars all
rejects_long = refl

new_name_iff_example :
    (◌≡◌ {A = String} "p1-2-3" "p1-2-3") × IsLabel (chars "p1-2-3") × (len "p1-2-3" ≤ 63)
new_name_iff_example = (new_name_iff 63 "p1-2-3" "p1-2-3").0 accepts_label

new_name-Explains_example : (chars "abcd" ≢ []) × (◌≡◌ {A = ℕ} 3 3) × (3 < len "abcd")
new_name-Explains_example = new_name-Explains 3 "abcd" (too_long 3) rejects_long

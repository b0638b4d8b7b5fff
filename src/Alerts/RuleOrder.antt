-- ===== src/Alerts/RuleOrder.antt =====
-- alerts/evaluator.py: the order of the rules by (priority, rule_id).
use nanexus_event_intelligen.Prelude.{◌≡◌, true, ◌||◌, List, arith}
use nanexus_event_intelligen.Prelude.Sorting.{sorted, IsSorted, sorted-IsSorted}
use nanexus_event_intelligen.Prelude.Texts.{text_leb_total, text_leb_trans}
use nanexus_event_intelligen.Alerts.Models.{ShadowRule}
use nanexus_event_intelligen.Alerts.Evaluator.{key_le}

pub key_le_total : (a b : ShadowRule) → (key_le a b || key_le b a) ≡ true
key_le_total a b = ground (arith, text_leb_total a.rule_id b.rule_id)

pub key_le_trans : (a b c : ShadowRule) → key_le a b ≡ true → key_le b c ≡ true → key_le a c ≡ true
key_le_trans a b c h k = ground (arith, text_leb_trans a.rule_id b.rule_id c.rule_id)

pub sorted_rules-IsSorted : (rules : List ShadowRule) → IsSorted key_le (sorted key_le rules)
sorted_rules-IsSorted = sorted-IsSorted key_le key_le_total key_le_trans

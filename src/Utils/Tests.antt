-- ===== src/Utils/Tests.antt =====
-- Titles at a first message of several lines.
use llm_router_ui.Prelude.{◌≡◌, ◌≢◌, ◌≤◌, refl, [], length}
use llm_router_ui.Text.{Text, codes}
use llm_router_ui.Utils.{derive_title}
use llm_router_ui.Utils.Title.{IsPlain, derive_title_bounds}

abbrev wordy : Text
wordy = codes "  Plan a\n\ttrip to Lisbon for two people in early spring  "

wordy_title : derive_title wordy ≡ codes "Plan a trip to Lisbon for two people in ea…"
unfolding derive_title
wordy_title = refl

derive_title_bounds_example :
    (derive_title wordy ≢ []) × (length (derive_title wordy) ≤ 43) × IsPlain (derive_title wordy)
derive_title_bounds_example = derive_title_bounds wordy

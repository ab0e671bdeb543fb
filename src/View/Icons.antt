-- ===== src/View/Icons.antt =====
-- frontend/src/components/Icons.tsx: the drawings.
use Prim.Native.String.{String}
use llm_router_ui.Prelude.{List, [], ◌∷◌, ◌++◌}
use llm_router_ui.Text.{Text, codes}
use llm_router_ui.View.{Attribute, prop, value, View, el}

abbrev pub base : Text
base = codes "h-5 w-5"

-- the attributes of a drawing by strokes
abbrev stroked : Text → List Attribute
stroked class_name =
    value "className" class_name
    ∷ prop "viewBox" "0 0 24 24"
    ∷ prop "fill" "none"
    ∷ prop "stroke" "currentColor"
    ∷ prop "strokeWidth" "2"
    ∷ prop "strokeLinecap" "round"
    ∷ []

abbrev joined : Text → List Attribute
joined class_name = stroked class_name ++ prop "strokeLinejoin" "round" ∷ []

abbrev path : String → View
path d = el "path" (prop "d" d ∷ []) []

abbrev pub icon_plus : Text → View
icon_plus class_name = el "svg" (stroked class_name) (path "M12 5v14M5 12h14" ∷ [])

abbrev pub icon_send : Text → View
icon_send class_name = el "svg" (joined class_name) (path "M12 19V5M5 12l7-7 7 7" ∷ [])

abbrev pub icon_stop : Text → View
icon_stop class_name =
    el "svg"
      (value "className" class_name ∷ prop "viewBox" "0 0 24 24" ∷ prop "fill" "currentColor" ∷ [])
      (el "rect"
          (prop "x" "7"
            ∷ prop "y" "7"
            ∷ prop "width" "10"
            ∷ prop "height" "10"
            ∷ prop "rx" "1.5"
            ∷ [])
          []
        ∷ [])

abbrev pub icon_trash : Text → View
icon_trash class_name =
    el "svg" (joined class_name) (path "M3 6h18M8 6V4h8v2M19 6l-1 14H6L5 6" ∷ [])

abbrev pub icon_settings : Text → View
icon_settings class_name = el "svg" (joined class_name) (
    el "circle" (prop "cx" "12" ∷ prop "cy" "12" ∷ prop "r" "3" ∷ []) []
    ∷ path
        "M19.4 15a1.65 1.65 0 0 0 .33 1.82l.06.06a2 2 0 1 1-2.83 2.83l-.06-.06a1.65 1.65 0 0 0-1.82-.33 1.65 1.65 0 0 0-1 1.51V21a2 2 0 1 1-4 0v-.09A1.65 1.65 0 0 0 9 19.4a1.65 1.65 0 0 0-1.82.33l-.06.06a2 2 0 1 1-2.83-2.83l.06-.06a1.65 1.65 0 0 0 .33-1.82 1.65 1.65 0 0 0-1.51-1H3a2 2 0 1 1 0-4h.09A1.65 1.65 0 0 0 4.6 9a1.65 1.65 0 0 0-.33-1.82l-.06-.06a2 2 0 1 1 2.83-2.83l.06.06A1.65 1.65 0 0 0 9 4.6a1.65 1.65 0 0 0 1-1.51V3a2 2 0 1 1 4 0v.09a1.65 1.65 0 0 0 1 1.51 1.65 1.65 0 0 0 1.82-.33l.06-.06a2 2 0 1 1 2.83 2.83l-.06.06a1.65 1.65 0 0 0-.33 1.82V9a1.65 1.65 0 0 0 1.51 1H21a2 2 0 1 1 0 4h-.09a1.65 1.65 0 0 0-1.51 1z"
    ∷ [])

abbrev pub icon_menu : Text → View
icon_menu class_name = el "svg" (stroked class_name) (path "M3 6h18M3 12h18M3 18h18" ∷ [])

abbrev pub icon_close : Text → View
icon_close class_name = el "svg" (stroked class_name) (path "M18 6L6 18M6 6l12 12" ∷ [])

abbrev pub icon_copy : Text → View
icon_copy class_name = el "svg" (joined class_name) (
    el "rect"
      (prop "x" "9" ∷ prop "y" "9" ∷ prop "width" "13" ∷ prop "height" "13" ∷ prop "rx" "2" ∷ []) []
    ∷ path "M5 15H4a2 2 0 0 1-2-2V4a2 2 0 0 1 2-2h9a2 2 0 0 1 2 2v1"
    ∷ [])

abbrev pub icon_check : Text → View
icon_check class_name = el "svg" (joined class_name) (path "M20 6L9 17l-5-5" ∷ [])

abbrev pub icon_refresh : Text → View
icon_refresh class_name = el "svg" (joined class_name) (
    path "M23 4v6h-6M1 20v-6h6"
    ∷ path "M3.51 9a9 9 0 0 1 14.85-3.36L23 10M1 14l4.64 4.36A9 9 0 0 0 20.49 15"
    ∷ [])

abbrev pub icon_edit : Text → View
icon_edit class_name = el "svg" (joined class_name) (
    path "M11 4H4a2 2 0 0 0-2 2v14a2 2 0 0 0 2 2h14a2 2 0 0 0 2-2v-7"
    ∷ path "M18.5 2.5a2.12 2.12 0 0 1 3 3L12 15l-4 1 1-4z"
    ∷ [])

abbrev pub icon_chat : Text → View
icon_chat class_name = el "svg" (joined class_name) (
    path
      "M21 11.5a8.38 8.38 0 0 1-.9 3.8 8.5 8.5 0 0 1-7.6 4.7 8.38 8.38 0 0 1-3.8-.9L3 21l1.9-5.7a8.38 8.38 0 0 1-.9-3.8 8.5 8.5 0 0 1 4.7-7.6 8.38 8.38 0 0 1 3.8-.9h.5a8.48 8.48 0 0 1 8 8v.5z"
    ∷ [])

abbrev pub icon_lock : Text → View
icon_lock class_name = el "svg" (joined class_name) (
    el "rect"
      (prop "x" "3" ∷ prop "y" "11" ∷ prop "width" "18" ∷ prop "height" "11" ∷ prop "rx" "2" ∷ [])
      []
    ∷ path "M7 11V7a5 5 0 0 1 10 0v4"
    ∷ [])

abbrev pub icon_spinner : Text → View
icon_spinner class_name =
    el "svg"
      (value "className" (class_name ++ codes " animate-spin")
        ∷ prop "viewBox" "0 0 24 24"
        ∷ prop "fill" "none"
        ∷ [])
      (el "circle"
          (prop "cx" "12"
            ∷ prop "cy" "12"
            ∷ prop "r" "10"
            ∷ prop "stroke" "currentColor"
            ∷ prop "strokeWidth" "3"
            ∷ prop "opacity" "0.25"
            ∷ [])
          []
        ∷ el "path"
            (prop "d" "M22 12a10 10 0 0 0-10-10"
              ∷ prop "stroke" "currentColor"
              ∷ prop "strokeWidth" "3"
              ∷ prop "strokeLinecap" "round"
              ∷ [])
            []
        ∷ [])

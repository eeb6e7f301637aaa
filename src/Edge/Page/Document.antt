-- ===== src/Edge/Page/Document.antt =====
-- apps/trace-edge/src/page.rs: the whole page of a unit, and the page of a code that belongs to none. The
-- template stands as it is in the source, a literal for every line and between two values.
use traceability.Base.{List, [], ◌∷◌, ◌++◌}
use traceability.Edge.Page.{
  Text, escape, UnitHistory, Piece, literal, shown, PagePrinters, empty_note, event_rows,
  measurement_rows, component_rows,
}

abbrev pub concat : List (List Piece) → List Piece
concat [] = []
concat (part ∷ parts) = part ++ concat parts

abbrev pub style : List Piece
style =
    literal "<style>\n"
    ∷ literal ":root{color-scheme:light dark}\n"
    ∷ literal "*{box-sizing:border-box}\n"
    ∷ literal
        "body{margin:0;padding:1rem;font:15px/1.5 system-ui,-apple-system,Segoe UI,Roboto,sans-serif;\n"
    ∷ literal "background:#f6f7f9;color:#14181f}\n"
    ∷ literal "@media(prefers-color-scheme:dark){body{background:#12151a;color:#e6e9ee}\n"
    ∷ literal ".card{background:#1b1f27!important;border-color:#2a303b!important}\n"
    ∷ literal "th{background:#232833!important} td,th{border-color:#2a303b!important}}\n"
    ∷ literal ".wrap{max-width:60rem;margin:0 auto}\n"
    ∷ literal "h1{font-size:1.3rem;margin:.2rem 0}\n"
    ∷ literal ".uid{font-family:ui-monospace,SFMono-Regular,Menlo,monospace;font-size:1rem;\n"
    ∷ literal "letter-spacing:.02em;word-break:break-all}\n"
    ∷ literal
        ".card{background:#fff;border:1px solid #dfe3ea;border-radius:10px;padding:1rem;margin:1rem 0}\n"
    ∷ literal
        ".meta{display:grid;grid-template-columns:repeat(auto-fit,minmax(11rem,1fr));gap:.6rem}\n"
    ∷ literal ".meta div span{display:block;font-size:.75rem;text-transform:uppercase;\n"
    ∷ literal "letter-spacing:.05em;opacity:.6}\n"
    ∷ literal "table{width:100%;border-collapse:collapse;font-size:.85rem}\n"
    ∷ literal
        "th,td{text-align:left;padding:.4rem .5rem;border-bottom:1px solid #e6e9ef;vertical-align:top}\n"
    ∷ literal "th{background:#f0f2f6;font-weight:600;position:sticky;top:0}\n"
    ∷ literal ".scroll{overflow-x:auto}\n"
    ∷ literal ".pass{color:#0a7d33;font-weight:600}\n"
    ∷ literal ".fail{color:#c0281c;font-weight:700}\n"
    ∷ literal
        ".state{display:inline-block;padding:.15rem .5rem;border-radius:99px;font-size:.75rem;\n"
    ∷ literal "font-weight:700;background:#e7edf5;letter-spacing:.04em}\n"
    ∷ literal ".h,.raw{font-family:ui-monospace,Menlo,monospace;font-size:.75rem;opacity:.75;\n"
    ∷ literal "word-break:break-all}\n"
    ∷ literal ".none{opacity:.55;font-style:italic}\n"
    ∷ literal "footer{font-size:.75rem;opacity:.6;margin:1.5rem 0 .5rem}\n"
    ∷ []

module _ {F Stamp : Type 0} (p : PagePrinters F Stamp) (h : UnitHistory F Stamp) where
  abbrev pub document_head : List Piece
  document_head =
      literal "<!doctype html>\n"
      ∷ literal "<html lang=\"en\"><head>\n"
      ∷ literal "<meta charset=\"utf-8\">\n"
      ∷ literal "<meta name=\"viewport\" content=\"width=device-width,initial-scale=1\">\n"
      ∷ literal "<title>"
      ∷ shown (escape h.serial)
      ∷ literal " &middot; ElectronIx Trace</title>\n"
      ∷ []

  abbrev pub to_components : List Piece
  to_components =
      literal "</style></head>\n"
      ∷ literal "<body><div class=\"wrap\">\n"
      ∷ literal "\n"
      ∷ literal "<h1>"
      ∷ shown (escape h.model_no)
      ∷ literal " <span class=\"state\">"
      ∷ shown (escape h.state)
      ∷ literal "</span></h1>\n"
      ∷ literal "<div class=\"uid\">"
      ∷ shown (escape h.uid)
      ∷ literal "</div>\n"
      ∷ literal "\n"
      ∷ literal "<div class=\"card\"><div class=\"meta\">\n"
      ∷ literal "<div><span>Serial</span>"
      ∷ shown (escape h.serial)
      ∷ literal "</div>\n"
      ∷ literal "<div><span>Model</span>"
      ∷ shown (escape h.model_no)
      ∷ literal "</div>\n"
      ∷ literal "<div><span>Revision</span>"
      ∷ shown (escape h.revision)
      ∷ literal "</div>\n"
      ∷ literal "<div><span>Job card</span>"
      ∷ shown (escape h.job_number)
      ∷ literal "</div>\n"
      ∷ literal "<div><span>Plant</span>"
      ∷ shown (escape h.plant)
      ∷ literal "</div>\n"
      ∷ literal "<div><span>Born</span>"
      ∷ shown (escape (p.to_rfc3339 h.created_at))
      ∷ literal "</div>\n"
      ∷ literal "</div></div>\n"
      ∷ literal "\n"
      ∷ literal "<div class=\"card\"><h2>Components consumed</h2><div class=\"scroll\"><table>\n"
      ∷ literal "<thead><tr><th>Depth</th><th>Item</th><th>Op</th><th>When</th></tr></thead>\n"
      ∷ literal "<tbody>"
      ∷ []

  abbrev pub to_measurements : List Piece
  to_measurements =
      literal "</tbody></table></div></div>\n"
      ∷ literal "\n"
      ∷ literal "<div class=\"card\"><h2>Measurements</h2><div class=\"scroll\"><table>\n"
      ∷ literal
          "<thead><tr><th>When</th><th>Point</th><th>Value</th><th>Verdict</th><th>Source</th>\n"
      ∷ literal "<th>Raw device payload</th></tr></thead>\n"
      ∷ literal "<tbody>"
      ∷ []

  abbrev pub to_events : List Piece
  to_events =
      literal "</tbody></table></div></div>\n"
      ∷ literal "\n"
      ∷ literal "<div class=\"card\"><h2>Event history</h2><div class=\"scroll\"><table>\n"
      ∷ literal
          "<thead><tr><th>When</th><th>Event</th><th>Op</th><th>Station</th><th>Operator</th>\n"
      ∷ literal "<th>Hash</th></tr></thead>\n"
      ∷ literal "<tbody>"
      ∷ []

  abbrev pub footer : List Piece
  footer =
      literal "</tbody></table></div></div>\n"
      ∷ literal "\n"
      ∷ literal
          "<footer>ElectronIx Trace &middot; every measurement is hash chained and append only.\n"
      ∷ literal "Raw device payloads are retained verbatim.</footer>\n"
      ∷ literal "</div></body></html>"
      ∷ []

  abbrev pub parts : List (List Piece)
  parts =
      document_head
      ∷ style
      ∷ to_components
      ∷ empty_note (component_rows p h.components) "components"
      ∷ to_measurements
      ∷ empty_note (measurement_rows p h.measurements) "measurements"
      ∷ to_events
      ∷ empty_note (event_rows p h.events) "events"
      ∷ footer
      ∷ []

  unfoldable pub render : List Piece
  render = concat parts

-- The page for a code that belongs to no unit.
unfoldable pub not_found : Text → List Piece
not_found uid =
    literal "<!doctype html><html lang=\"en\"><head><meta charset=\"utf-8\">\n"
    ∷ literal "<meta name=\"viewport\" content=\"width=device-width,initial-scale=1\">\n"
    ∷ literal "<title>Not found &middot; ElectronIx Trace</title>\n"
    ∷ literal
        "<style>body{font:15px/1.6 system-ui,sans-serif;margin:0;padding:2rem;text-align:center;\n"
    ∷ literal "color:#14181f;background:#f6f7f9}\n"
    ∷ literal
        "code{font-family:ui-monospace,Menlo,monospace;background:#e7ebf1;padding:.2rem .4rem;\n"
    ∷ literal "border-radius:4px;word-break:break-all}\n"
    ∷ literal "@media(prefers-color-scheme:dark){body{background:#12151a;color:#e6e9ee}\n"
    ∷ literal "code{background:#232833}}</style></head>\n"
    ∷ literal "<body><h1>No unit found</h1>\n"
    ∷ literal "<p><code>"
    ∷ shown (escape uid)
    ∷ literal "</code> does not match any unit known to this plant.</p>\n"
    ∷ literal
        "<p style=\"opacity:.7;font-size:.9rem\">If this code was printed at another site, it must be\n"
    ∷ literal "looked up there. Check the human-readable text beside the code.</p>\n"
    ∷ literal "</body></html>"
    ∷ []

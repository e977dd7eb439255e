-- ===== src/Preview/Markup.antt =====
-- The markup of preview/main.go.
use link_nest.Base.{List, [], ◌∷◌, ◌++◌}
use link_nest.Text.{Text, lit}

-- The lines of a text, with line ends between them.
abbrev joined_lines : List Text → Text
joined_lines [] = []
joined_lines (l ∷ []) = l
joined_lines (l ∷ m ∷ ls) = l ++ 10 ∷ joined_lines (m ∷ ls)

-- `framePage`, cut at its four `%s`.
unfoldable pub frame_head : Text
frame_head = joined_lines (
    lit "<!doctype html><meta charset=\"utf-8\"><style>"
    ∷ lit "body{margin:0;background:#333}"
    ∷ lit "iframe{width:"
    ∷ [])

unfoldable pub frame_body : Text
frame_body = joined_lines (
    lit "px;height:6000px;border:0;background:#fff;display:block}"
    ∷ lit "pre{color:#0f0;font:12px monospace;padding:8px;margin:0}"
    ∷ lit "</style>"
    ∷ lit "<iframe id=\"f\" src=\"/"
    ∷ [])

unfoldable pub frame_mark : Text
frame_mark = joined_lines (lit "?" ∷ [])

unfoldable pub frame_tail : Text
frame_tail = joined_lines (
    lit "\"></iframe>"
    ∷ lit "<script>"
    ∷ lit "document.getElementById('f').addEventListener('load', function () {"
    ∷ lit "  var self = this;"
    ∷ lit "  setTimeout(function () {"
    ∷ lit "    var probe = self.contentDocument.getElementById('overflow-probe');"
    ∷ lit "    var pre = document.createElement('pre');"
    ∷ lit "    pre.id = 'frame-probe';"
    ∷ lit "    pre.textContent = probe ? probe.textContent : '(no probe)';"
    ∷ lit "    document.body.appendChild(pre);"
    ∷ lit "  }, 500);"
    ∷ lit "});"
    ∷ lit "</script>"
    ∷ [])

unfoldable pub overflow_probe : Text
overflow_probe = joined_lines (
    lit "<script>"
    ∷ lit "window.addEventListener('load', function () {"
    ∷ lit "  var vw = document.documentElement.clientWidth;"
    ∷ lit "  var out = ['viewport=' + vw + ' scrollWidth=' + document.documentElement.scrollWidth];"
    ∷ lit "  document.querySelectorAll('*').forEach(function (el) {"
    ∷ lit "    var r = el.getBoundingClientRect();"
    ∷ lit "    if (r.width > vw + 1 || r.right > vw + 1) {"
    ∷ lit "      out.push(el.tagName + '.' + (el.className || '(none)') +"
    ∷ lit
        "        ' w=' + Math.round(r.width) + ' left=' + Math.round(r.left) + ' right=' + Math.round(r.right));"
    ∷ lit "    }"
    ∷ lit "  });"
    ∷ lit "  var pre = document.createElement('pre');"
    ∷ lit "  pre.id = 'overflow-probe';"
    ∷ lit "  pre.textContent = out.join('\\n');"
    ∷ lit "  document.body.appendChild(pre);"
    ∷ lit "});"
    ∷ lit "</script>"
    ∷ [])

-- What `?open` adds.
unfoldable pub open_all : Text
open_all =
    lit
      "<script>document.querySelectorAll(\"details\").forEach(function (d) { d.open = true; });</script>"

-- ===== src/Platform/Sample.antt =====
-- A concrete platform, for runs of the definitions on examples.
use link_nest.Base.{Option, none, some, [], ◌++◌, if◌then◌else◌}
use link_nest.Text.{Text, equals, cut}
use link_nest.Text.Utf8.{to_lower}
use link_nest.Text.Decimal.{decimal}
use link_nest.Platform.{Platform, ParsedUrl}

-- The scheme before "://", and the host behind it.
parse_simple : Text → Option ParsedUrl
parse_simple url = elim (cut b':' url) [
  | none ↦ none
  | some (scheme, rest) ↦ elim (cut b'/' rest) [
    | none ↦ some (record { scheme = scheme; host = []; opaque = rest })
    | some (_, path) ↦ elim (cut b'/' path) [
      | none ↦ some (record { scheme = scheme; host = []; opaque = [] })
      | some (_, host) ↦ some (record { scheme = scheme; host = host; opaque = [] })
    ]
  ]
]

unfoldable pub parse_address_simple : Text → Option (Text × Text)
parse_address_simple s = if equals s [] then none else some ([], s)

unfoldable pub parse_url_simple : Text → Option ParsedUrl
unfolding parse_simple
parse_url_simple = parse_simple

abbrev pub sample : Platform
sample = record {
  lower = λ r. r;
  parse_address = parse_address_simple;
  parse_url = parse_url_simple;
  hmac = λ key message. key ++ message;
  sha256 = λ message. message;
  rfc3339 = decimal;
  password_matches = equals;
  same = equals;
  same_lower = λ s t. equals (to_lower (λ r. r) s) (to_lower (λ r. r) t);
  duplicate_message = λ value key. value ++ key;
}

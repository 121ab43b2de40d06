-- ===== src/Tests/Configs.antt =====
-- Configuration texts and function bodies that differ in what must not be seen.
use nexus_intelli_core.Prelude.{[], ◌∷◌, ◌++◌, none, some, ◌≡◌, refl, length, ◌+◌, arith}
use nexus_intelli_core.Prelude.Text.{Text, codes, text_eq, text_starts_with}
use nexus_intelli_core.Transport.Bytes.{is_utf8, split_once, trim, trim_end, trim_start}
use nexus_intelli_core.Linter.{lines}
use nexus_intelli_core.Privacy.Config.{
  ConfigEngine, is_plain, sanitize_config_text, SameButSecrets, sanitize_config_text-SameButSecrets,
}
use nexus_intelli_core.Privacy.Bodies.{
  strip_body_by_range, strip_body_by_range-hides, strip_function_body_with_placeholder,
}
use nexus_intelli_core.Tests.Fixtures.{engine, lower}

abbrev config_engine : ConfigEngine
config_engine = record {
  engine = engine;
  has_ipv4 = text_eq (codes "10.0.0.7");
  replace_ipv4 = λ f t. f t;
  captures = λ line. elim (split_once 61 line) [
    | none ↦ none
    | some (k, v) ↦ some (record { indent = []; key = k; sep = codes "="; value = v })
  ];
  is_sensitive_key = text_eq (codes "token");
}

abbrev one : Text
one = codes "host=10.0.0.7" ++ 10 ∷ codes "token=abc"

abbrev two : Text
two = codes "host=10.0.0.7" ++ 10 ∷ codes "token=xyz z"

sanitized_one :
    (sanitize_config_text config_engine one).0
    ≡ codes "host=[REDACTED_BY_MCP]" ++ 10 ∷ codes "token=[REDACTED_BY_MCP]"
unfolding sanitize_config_text trim_start text_starts_with split_once trim text_eq
sanitized_one = refl

only_token : SameButSecrets config_engine (lines one) (lines two)
unfolding lines is_plain trim trim_start trim_end split_once text_starts_with text_eq
only_token = SameButSecrets.equal (
    SameButSecrets.secret
      (record {
        here = record { indent = []; key = codes "token"; sep = codes "="; value = codes "abc" };
        there = record { indent = []; key = codes "token"; sep = codes "="; value = codes "xyz z" };
        left = record { found = refl; visible = refl; present = refl; sensitive = refl };
        right = record { found = refl; visible = refl; present = refl; sensitive = refl };
        same_indent = refl;
        same_key = refl;
        same_sep = refl;
      })
      SameButSecrets.done)

sanitize_config_text-SameButSecrets_example :
    sanitize_config_text config_engine one ≡ sanitize_config_text config_engine two
sanitize_config_text-SameButSecrets_example =
    sanitize_config_text-SameButSecrets config_engine one two only_token

abbrev before : Text
before = codes "fn f() {"

stripped :
    strip_function_body_with_placeholder lower (codes "fn f() { 1 }") (codes "rust") (codes "x")
    ≡ codes "fn f() {" ++ 10 ∷ codes "    /* x */" ++ 10 ∷ codes "}"
unfolding strip_function_body_with_placeholder text_eq trim_end is_utf8 lines
stripped = refl

strip_body_by_range-hides_example :
    strip_body_by_range lower
      (before ++ (codes " 1 " ++ codes "}"))
      (length before, length before + 3)
      (codes "rust")
      (codes "x")
    ≡ strip_body_by_range lower
        (before ++ (codes " secret() " ++ codes "}"))
        (length before, length before + 10)
        (codes "rust")
        (codes "x")
unfolding is_utf8 text_eq
strip_body_by_range-hides_example =
    strip_body_by_range-hides lower before (codes " 1 ") (codes " secret() ") (codes "}")
      (codes "rust") (codes "x") refl refl refl refl (λ e. absurd (ground (arith, e)))

-- ===== src/Access/Rules.antt =====
-- auth.py: what a viewer rule amounts to.
use nixbot.Prelude.{◌≡◌, true, false, arith, string_eq, ==_refl}
use nixbot.Prelude.Texts.{rpartition-colon, has_char}
use nixbot.Access.{User, qualified, colon, matches_rule, matches_parts}

-- A user whose name has no colon matches the rule that is the qualified name of the user, whatever
-- colons the provider has.
pub matches_rule-qualified :
    (user : User) → has_char colon user.username ≡ false → matches_rule user (qualified user) ≡ true
unfolding matches_rule matches_parts qualified
matches_rule-qualified user h =
    rw (rpartition-colon user.provider user.username h)
      (ground (arith, ==_refl user.provider, ==_refl user.username))

-- ===== src/Parsers/Tests.antt =====
-- The parsers' theorems on a name with a tag.
use docker_analysis.Base.{◌≡◌, ◌↔◌, codes}
use docker_analysis.Parsers.{parse_repository_tag}
use docker_analysis.Parsers.Names.{NameAndTag, parse_repository_tag_iff}

parse_repository_tag_iff_example :
    (parse_repository_tag (codes "root:tag") ≡ (codes "root", codes "tag"))
    ↔ NameAndTag (codes "root:tag") (codes "root") (codes "tag")
parse_repository_tag_iff_example =
    parse_repository_tag_iff (codes "root:tag") (codes "root") (codes "tag")

-- ===== src/Categorise/Keywords.antt =====
-- `_KEYWORDS` of features/merged_prs/categorise.py: the words of each category.
use gitbounty.Base.{List, [], ◌∷◌}
use gitbounty.Text.{Text, text}
use gitbounty.PullRequest.{
  Category, frontend, backend, fullstack, docs, testing, devops, design, mobile, other,
}

-- `_KEYWORDS`
abbrev pub keywords : Category → List Text
keywords docs =
    text "docs"
    ∷ text "doc"
    ∷ text "documentation"
    ∷ text "readme"
    ∷ text "typo"
    ∷ text "wording"
    ∷ text "changelog"
    ∷ []
keywords frontend =
    text "frontend"
    ∷ text "front-end"
    ∷ text "ui"
    ∷ text "ux"
    ∷ text "css"
    ∷ text "styling"
    ∷ text "styles"
    ∷ text "html"
    ∷ text "layout"
    ∷ text "responsive"
    ∷ text "accessibility"
    ∷ text "a11y"
    ∷ []
keywords backend =
    text "backend"
    ∷ text "back-end"
    ∷ text "api"
    ∷ text "server"
    ∷ text "database"
    ∷ text "db"
    ∷ text "sql"
    ∷ text "migration"
    ∷ text "migrations"
    ∷ text "endpoint"
    ∷ text "query"
    ∷ text "auth"
    ∷ []
keywords fullstack = text "fullstack" ∷ text "full-stack" ∷ []
keywords testing =
    text "test"
    ∷ text "tests"
    ∷ text "testing"
    ∷ text "coverage"
    ∷ text "flaky"
    ∷ text "e2e"
    ∷ text "unit-test"
    ∷ []
keywords devops =
    text "ci"
    ∷ text "cd"
    ∷ text "devops"
    ∷ text "docker"
    ∷ text "kubernetes"
    ∷ text "k8s"
    ∷ text "deploy"
    ∷ text "deployment"
    ∷ text "pipeline"
    ∷ text "infra"
    ∷ text "infrastructure"
    ∷ text "terraform"
    ∷ text "helm"
    ∷ text "release"
    ∷ text "workflow"
    ∷ []
keywords design =
    text "design"
    ∷ text "mockup"
    ∷ text "figma"
    ∷ text "branding"
    ∷ text "icon"
    ∷ text "logo"
    ∷ text "theme"
    ∷ text "visual"
    ∷ []
keywords mobile =
    text "mobile"
    ∷ text "android"
    ∷ text "ios"
    ∷ text "react-native"
    ∷ text "flutter"
    ∷ text "swift"
    ∷ []
keywords other = []

-- ===== src/Categorise/Words.antt =====
-- The lists of paths of features/merged_prs/categorise.py.
use gitbounty.Base.{List, [], ◌∷◌}
use gitbounty.Text.{Text, text}

-- `_DOC_EXTENSIONS`
abbrev pub doc_extensions : List Text
doc_extensions = text ".md" ∷ text ".mdx" ∷ text ".rst" ∷ text ".adoc" ∷ text ".txt" ∷ []

-- `_DOC_DIRECTORIES`
abbrev pub doc_directories : List Text
doc_directories = text "docs" ∷ text "doc" ∷ text "documentation" ∷ text "man" ∷ []

-- `_DOC_FILENAMES`
abbrev pub doc_filenames : List Text
doc_filenames =
    text "readme"
    ∷ text "changelog"
    ∷ text "contributing"
    ∷ text "license"
    ∷ text "licence"
    ∷ text "authors"
    ∷ text "codeowners"
    ∷ []

-- `_TEST_DIRECTORIES`
abbrev pub test_directories : List Text
test_directories =
    text "test"
    ∷ text "tests"
    ∷ text "spec"
    ∷ text "specs"
    ∷ text "__tests__"
    ∷ text "e2e"
    ∷ text "integration_tests"
    ∷ text "testing"
    ∷ []

-- `_DEVOPS_DIRECTORIES`
abbrev pub devops_directories : List Text
devops_directories =
    text ".github"
    ∷ text ".gitlab"
    ∷ text ".circleci"
    ∷ text "ci"
    ∷ text "cd"
    ∷ text "deploy"
    ∷ text "deployment"
    ∷ text "k8s"
    ∷ text "kubernetes"
    ∷ text "helm"
    ∷ text "terraform"
    ∷ text "ansible"
    ∷ text "infra"
    ∷ text "infrastructure"
    ∷ text ".husky"
    ∷ []

-- `_DEVOPS_EXTENSIONS`
abbrev pub devops_extensions : List Text
devops_extensions = text ".tf" ∷ text ".tfvars" ∷ []

-- `_DEVOPS_FILENAMES`
abbrev pub devops_filenames : List Text
devops_filenames =
    text "dockerfile"
    ∷ text "docker-compose"
    ∷ text "jenkinsfile"
    ∷ text "procfile"
    ∷ text "makefile"
    ∷ text "vagrantfile"
    ∷ text ".dockerignore"
    ∷ text "nginx"
    ∷ []

-- `_MOBILE_DIRECTORIES`
abbrev pub mobile_directories : List Text
mobile_directories = text "android" ∷ text "ios" ∷ text "mobile" ∷ text "flutter" ∷ []

-- `_MOBILE_EXTENSIONS`
abbrev pub mobile_extensions : List Text
mobile_extensions = text ".swift" ∷ text ".dart" ∷ text ".xib" ∷ text ".storyboard" ∷ []

-- `_MOBILE_FILENAMES`
abbrev pub mobile_filenames : List Text
mobile_filenames = text "androidmanifest" ∷ text "podfile" ∷ text "info" ∷ []

-- `_DESIGN_DIRECTORIES`
abbrev pub design_directories : List Text
design_directories =
    text "design" ∷ text "designs" ∷ text "mockups" ∷ text "wireframes" ∷ text "branding" ∷ []

-- `_DESIGN_EXTENSIONS`
abbrev pub design_extensions : List Text
design_extensions = text ".fig" ∷ text ".sketch" ∷ text ".psd" ∷ text ".ai" ∷ text ".xd" ∷ []

-- `_FRONTEND_EXTENSIONS`
abbrev pub frontend_extensions : List Text
frontend_extensions =
    text ".css"
    ∷ text ".scss"
    ∷ text ".sass"
    ∷ text ".less"
    ∷ text ".html"
    ∷ text ".htm"
    ∷ text ".vue"
    ∷ text ".svelte"
    ∷ text ".jsx"
    ∷ text ".tsx"
    ∷ []

-- `_FRONTEND_DIRECTORIES`
abbrev pub frontend_directories : List Text
frontend_directories =
    text "components"
    ∷ text "component"
    ∷ text "styles"
    ∷ text "style"
    ∷ text "css"
    ∷ text "public"
    ∷ text "static"
    ∷ text "assets"
    ∷ text "ui"
    ∷ text "views"
    ∷ text "pages"
    ∷ text "templates"
    ∷ text "frontend"
    ∷ text "client"
    ∷ text "web"
    ∷ []

-- `_BACKEND_EXTENSIONS`
abbrev pub backend_extensions : List Text
backend_extensions =
    text ".py"
    ∷ text ".go"
    ∷ text ".rb"
    ∷ text ".java"
    ∷ text ".kt"
    ∷ text ".php"
    ∷ text ".rs"
    ∷ text ".cs"
    ∷ text ".ex"
    ∷ text ".exs"
    ∷ text ".sql"
    ∷ text ".sh"
    ∷ []

-- `_BACKEND_DIRECTORIES`
abbrev pub backend_directories : List Text
backend_directories =
    text "api"
    ∷ text "server"
    ∷ text "backend"
    ∷ text "migrations"
    ∷ text "migration"
    ∷ text "models"
    ∷ text "model"
    ∷ text "controllers"
    ∷ text "services"
    ∷ text "db"
    ∷ text "database"
    ∷ text "routes"
    ∷ text "middleware"
    ∷ text "handlers"
    ∷ text "schemas"
    ∷ text "jobs"
    ∷ text "workers"
    ∷ []

-- `_BACKEND_FILENAMES`
abbrev pub backend_filenames : List Text
backend_filenames =
    text "requirements" ∷ text "pyproject" ∷ text "gemfile" ∷ text "pom" ∷ text "go" ∷ []

-- `_AMBIGUOUS_EXTENSIONS`
abbrev pub ambiguous_extensions : List Text
ambiguous_extensions =
    text ".js"
    ∷ text ".ts"
    ∷ text ".mjs"
    ∷ text ".cjs"
    ∷ text ".json"
    ∷ text ".yml"
    ∷ text ".yaml"
    ∷ text ".toml"
    ∷ []
